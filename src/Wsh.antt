-- ===== src/Wsh.antt =====
-- p3/wsh.c: the shell, in modules for the job table and for the words of a line.
pub mod Jobs
pub mod Line
pub mod Command
pub mod Pipes
pub mod Session
mod Tests
