-- ===== src/Session.antt =====
-- A session: source/cplr_interact.c and source/cplr_main.c.
pub mod Interact
pub mod Chains
pub mod Grown
pub mod Frees
pub mod Total
pub mod Listing
pub mod Main
pub mod Whole
