-- ===== src/Wfs.antt =====
-- p7: the log-structured file system, in modules for the log, for paths and for the operations.
pub mod Log
pub mod Path
pub mod Ops
pub mod Live
pub mod Invariant
pub mod Lookup
pub mod Listed
pub mod Names
pub mod Refine
pub mod Tree
pub mod Grow
pub mod Made
pub mod Found
pub mod ReadBack
pub mod Remount
mod Tests
