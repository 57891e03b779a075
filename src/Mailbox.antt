-- ===== src/Mailbox.antt =====
-- actix/src/address/channel.rs, the mailbox of an actor: a bounded channel with many senders.
pub mod State
pub mod Channel
pub mod Receiver
pub mod Invariant
pub mod Receiving
pub mod Closing
pub mod Capacity
pub mod Delivery
pub mod Atomic
mod Examples
