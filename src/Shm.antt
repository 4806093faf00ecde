-- ===== src/Shm.antt =====
-- shm_wrapper: the shared memory blocks and the operations of the processes on them.
pub mod Types
pub mod Devices
pub mod Params
pub mod Subscriptions
pub mod Inputs
pub mod LogData
pub mod Start
pub mod Valid
pub mod Steps
mod Tests
