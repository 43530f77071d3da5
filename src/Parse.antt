-- ===== src/Parse.antt =====
-- The parser of gdb's output (src/parse.c).
pub mod Cstring
pub mod Values
pub mod Records
pub mod Print
