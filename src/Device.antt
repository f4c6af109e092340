-- ===== src/Device.antt =====
-- The device handle of pymammotion/device/handle.py: which transport carries a command, what a send
-- does with its errors, and the availability of the device.
pub mod Sending
pub mod Raw
pub mod Debounce
pub mod Polling
pub mod Inbound
