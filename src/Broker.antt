-- ===== src/Broker.antt =====
-- actix-broker/src: the broker, which keeps subscriptions and routes messages to them.
pub mod Subscriptions
pub mod Offering
pub mod Issuing
pub mod Remembering
mod Examples
