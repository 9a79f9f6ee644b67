-- ===== src/Generate.antt =====
-- source/cplr_generate.c: the C program that is made from the piles, and its dump.
pub mod Emit
pub mod Sections
mod Labeled
pub mod Phase
pub mod Dump
pub mod Program
pub mod Printed
pub mod Lines
pub mod Items
pub mod Section
pub mod Whole
pub mod Correct
pub mod Shown
