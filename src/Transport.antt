-- ===== src/Transport.antt =====
-- pymammotion/transport
pub mod RateLimit
pub mod EventBus
pub mod Ble
