-- ===== src/State.antt =====
-- source/cplr.h and source/cplr_state.c: the state of a piler, and the functions that create,
-- copy, chain and free one. `T` is the type of the states of the compiler library.
pub mod Enums
pub mod Context
pub mod Clone
pub mod Chain
pub mod Laws
pub mod Symbols
pub mod Struct
