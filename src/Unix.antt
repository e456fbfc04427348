-- ===== src/Unix.antt =====
-- p1: the programs wgroff, wman and wapropos of p1/tests.
pub mod Convert
pub mod Groff
pub mod Wman
pub mod Apropos
mod Tests
