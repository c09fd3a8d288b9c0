-- ===== src/Gate/Policy/Dimension.antt =====
-- pkg/gate/policy.go: the policy of a dimension and its levels.
use backstop_core.Prelude.{String, Bool, true, false, Option, none, some, ◌==◌, if◌then◌else◌}

-- `DimensionPolicy` and its map of source overrides.
mutual
  pub data DimensionPolicy : Type 0 where
    policy : String → String → Sources → DimensionPolicy

  pub data Sources : Type 0 where
    no_sources : Sources
    source : String → DimensionPolicy → Sources → Sources

abbrev pub level_of : DimensionPolicy → String
level_of (policy l a s) = l

abbrev pub applies_to_of : DimensionPolicy → String
applies_to_of (policy l a s) = a

abbrev pub sources_of : DimensionPolicy → Sources
sources_of (policy l a s) = s

abbrev pub has_sources : Sources → Bool
has_sources no_sources = false
has_sources (source k p rest) = true

-- `override, ok := p.Sources[v.SourcePack]`
unfoldable pub lookup_source : String → Sources → Option DimensionPolicy
lookup_source k no_sources = none
lookup_source k (source j p rest) = if j == k then some p else lookup_source k rest

abbrev pub policy_off : String
policy_off = "off"

abbrev pub policy_warn : String
policy_warn = "warn"

abbrev pub policy_block : String
policy_block = "block"

abbrev pub applies_to_new_code : String
applies_to_new_code = "new-code"

abbrev pub applies_to_all_code : String
applies_to_all_code = "all-code"
