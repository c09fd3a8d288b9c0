-- ===== src/Tests.antt =====
-- The theorems at concrete inputs, and runs of the definitions.
mod Samples
mod Texts
mod Versions
mod Runs
mod Policies
mod Baselines
mod Waivers
mod Joins
mod Coverage
mod Packs
mod Projects
mod Substance
mod Traceability
