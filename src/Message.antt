-- ===== src/Message.antt =====
-- dev_handler/message.c: building, encoding and parsing the messages of the serial protocol.
pub mod Types
pub mod MessageId
pub mod Cobs
pub mod Payload
pub mod Build
pub mod Serial
mod Tests
