-- ===== src/Optparse.antt =====
-- source/cplr_optparse.c: the command line.
pub mod Options
pub mod Piles
pub mod Help
