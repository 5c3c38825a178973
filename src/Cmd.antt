-- ===== src/Cmd.antt =====
-- The commands of the terminal, of daemon/cmd.c.
pub mod Text
pub mod Defs
pub mod Terminal
pub mod Tokens
pub mod Numbers
pub mod Set
pub mod Repeat
pub mod Register
pub mod Outcomes
pub mod Soundness
mod Tests
