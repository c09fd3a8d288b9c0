-- ===== src/Gate/Traceability.antt =====
-- pkg/gate/requirement_traceability.go: which requirements of the bundles the artifacts support. The
-- maps of the classifier are association lists, its maps of maps of flags are lists of pairs of keys.
pub mod Pins
pub mod Refs
pub mod Classify
pub mod Covering
pub mod Uncovered
pub mod Supported
