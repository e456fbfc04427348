-- ===== src/Sched.antt =====
-- p4/xv6-public: the process table of proc.c, with the nice, getschedstate and sleep system calls.
pub mod Table
pub mod Life
pub mod Scheduler
pub mod Calls
pub mod System
mod Tests
