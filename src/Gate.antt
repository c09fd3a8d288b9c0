-- ===== src/Gate.antt =====
-- pkg/gate: the verification kill chain. Each child names the file of that package that it models.
pub mod Violation
pub mod Scope
pub mod Identity
pub mod Baseline
pub mod Policy
pub mod Waivers
pub mod Result
pub mod Run
pub mod Polarity
pub mod StatusDrift
pub mod TestVerdict
pub mod Substantiveness
pub mod Contract
pub mod Coverage
pub mod Traceability
