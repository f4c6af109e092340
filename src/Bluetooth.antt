-- ===== src/Bluetooth.antt =====
-- pymammotion/bluetooth
pub mod Framing
