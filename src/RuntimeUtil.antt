-- ===== src/RuntimeUtil.antt =====
-- runtime_util: the types, the device tables, lookups by name, and whole reads and writes.
pub mod Types
pub mod Devices
pub mod Lookup
pub mod Buttons
pub mod FileIo
mod Tests
