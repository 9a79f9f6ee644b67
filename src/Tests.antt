-- ===== src/Tests.antt =====
-- Runs on concrete data, and the theorems at inputs that meet their hypotheses.
pub mod Setup
pub mod Allocation
mod PackageRuns
mod StateRuns
mod GenerateRuns
mod DumpRuns
mod PhaseRuns
mod CommandRuns
mod SessionRuns
mod ListingRuns
mod HelpRuns
mod CextRuns
mod StructRuns
mod ValueRuns
mod ErrorRuns
