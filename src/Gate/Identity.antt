-- ===== src/Gate/Identity.antt =====
-- pkg/gate/baseline.go: the identity by which a finding is grandfathered. `hash_string` stands for
-- the SHA-256 digest in hexadecimal; nothing is assumed of it.
use backstop_core.Prelude.{String, ◌==◌, [], ◌∷◌, if◌then◌else◌}
use backstop_core.Text.{trim_space}
use backstop_core.Text.Numbers.{concat}
use backstop_core.FilePath.{normalize_path}
use backstop_core.Gate.Violation.{Violation}

-- `rule|file`, the first part of an identity.
unfoldable pub location_of : Violation → String
unfolding concat
location_of v = concat (trim_space v.rule ∷ "|" ∷ trim_space v.file ∷ [])

-- The text that is hashed for a finding with no region hash of its own.
unfoldable pub region_text : Violation → String
unfolding concat
region_text v =
    concat
      (trim_space v.message ∷ "|" ∷ trim_space v.severity ∷ "|" ∷ trim_space v.source_pack ∷ [])

module _ (hash_string : String → String) where
  unfoldable pub region_of : Violation → String
  unfolding region_text
  region_of v =
      let own = trim_space v.region_hash in if own == "" then hash_string (region_text v) else own

  -- `EnrichViolationIdentity`
  unfoldable pub enrich : Violation → Violation
  unfolding region_of location_of
  enrich v0 =
      let v = record v0 { file = normalize_path "" v0.file } in
      let region = region_of v in
      let full = concat (location_of v ∷ "|" ∷ region ∷ []) in
      record v { identity = full; region_hash = region; identity_hash = hash_string full }
