-- ===== src/Command.antt =====
-- source/cplr_command.c: a line of an interactive session.
pub mod Line
pub mod Prefixes
pub mod Keeps
pub mod Print
