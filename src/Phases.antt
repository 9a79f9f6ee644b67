-- ===== src/Phases.antt =====
-- The phases of a run: source/cplr_prepare.c, source/cplr_compile.c, source/cplr_execute.c and
-- source/cplr_run.c.
pub mod Prepare
pub mod Compile
pub mod Execute
pub mod Run
pub mod Prepares
pub mod Calls
pub mod Errors
pub mod Waits
pub mod Symbols
pub mod Ends
pub mod Steps
pub mod Sound
pub mod Sequence
