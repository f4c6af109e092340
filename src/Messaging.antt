-- ===== src/Messaging.antt =====
-- pymammotion/messaging
pub mod Broker
pub mod CommandQueue
pub mod SagaItem
pub mod Saga
pub mod Transfers
pub mod MapFetch
pub mod MowPath
pub mod EdgeMapping
