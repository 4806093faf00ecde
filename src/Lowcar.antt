-- ===== src/Lowcar.antt =====
-- lowcar/devices: the firmware of the devices, at the other end of the protocol of dev_handler.
pub mod Types
pub mod Cobs
pub mod Messenger
pub mod Params
pub mod Logs
pub mod Device
mod Tests
pub mod Devices
