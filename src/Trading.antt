-- ===== src/Trading.antt =====
-- trading/src: orders, books, their matching and the engine, accounts, the actors of accounts and
-- orders, risk, and the state machine.
pub mod Order
pub mod Account
pub mod Funds
pub mod Holdings
pub mod Levels
pub mod Book
pub mod Matcher
pub mod Ascending
pub mod Upkeep
pub mod Resting
pub mod Taking
pub mod Placing
pub mod Ending
pub mod Executing
pub mod Pricing
pub mod Filling
pub mod Continuous
pub mod Open
pub mod Exchanging
pub mod Settling
pub mod Engine
pub mod Trades
pub mod Dispatch
pub mod Teller
pub mod Tellers
pub mod Leaving
pub mod Desk
pub mod Desks
mod Desking
pub mod Machine
pub mod Replicas
pub mod Numbering
pub mod Risk
pub mod Approval
mod Examples
mod Accounts
mod Commands
mod Engines
