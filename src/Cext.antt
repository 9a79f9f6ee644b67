-- ===== src/Cext.antt =====
-- The helper library of the program: source/cext_string.c, source/cext_value.c,
-- source/cext_memory.c and source/cext_list.c, with the headers below include/cext.
pub mod Strings
pub mod Types
pub mod Memory
mod Allocate
pub mod Value
pub mod List
