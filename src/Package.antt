-- ===== src/Package.antt =====
-- source/cplr_package.c and source/cpkg.c: the options that pkg-config reports for a package.
pub mod Scan
pub mod Options
pub mod RoundTrip
pub mod Totality
pub mod Separate
pub mod Query
pub mod Retrieve
