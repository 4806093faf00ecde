-- ===== src/Executor.antt =====
-- executor/executor.c: the process that runs the student's code.
pub mod Challenges
pub mod Child
pub mod Modes
pub mod Python
pub mod Reset
mod Tests
