-- ===== src/Examples.antt =====
-- Tests and worked instances of the theorems, one module for each group of parts.
mod PolicyRuns
mod RegistryRuns
mod MemberRuns
mod ProbeRuns
mod StateRuns
mod EnforcementRuns
mod AddressRuns
mod ProfileRuns
mod CatalogRuns
mod AuthRuns
mod ApiRuns
mod SessionRuns
mod BookRuns
mod GuestRuns
mod SavedRuns
