-- ===== src/Connect.antt =====
-- The dialogue with gdb (src/connect.c): lines from the pipe, responses, and waiting for them.
pub mod Handle
pub mod Getline
pub mod Response
pub mod Wait
pub mod Callbacks
