-- ===== src/Gate/Traceability/Refs.antt =====
-- requirement_traceability.go: the maps of the records, and the loop over the references.
use Prim.Native.String.{String}
use backstop_core.Prelude.{
  Bool, true, false, not, ◌&&◌, ◌||◌, List, [], ◌∷◌, Option, some, ◌==◌, put, lookup, if◌then◌else◌,
}
use backstop_core.FilePath.{normalize_path}
use backstop_core.Text.Numbers.{concat}
use backstop_core.Gate.Violation.{Violation, new_violation, step_requirement_traceability}
use backstop_core.Gate.StatusDrift.{
  StatusClass, retired_terminal, ArtifactKind, spec, issue, bundle, ArtifactStatusRecord,
}
use backstop_core.Gate.Traceability.Pins.{
  TraceRef, is_success, is_spec, supports_coverage, stale_pin_verdict, bundle_req_version,
}

abbrev pub Records : Type 0
Records = List (String × ArtifactStatusRecord)

abbrev pub is_retired_class : StatusClass → Bool
is_retired_class retired_terminal = true
is_retired_class _ = false

abbrev pub add_bundle : ArtifactStatusRecord → ArtifactKind → Records → Records
add_bundle rec bundle m = if rec.bundle_name == "" then m else put rec.bundle_name rec m
add_bundle rec _ m = m

abbrev pub add_citer : ArtifactStatusRecord → ArtifactKind → Records → Records
add_citer rec spec m = put (normalize_path "" rec.path) rec m
add_citer rec issue m = put (normalize_path "" rec.path) rec m
add_citer rec _ m = m

abbrev pub add_spec : ArtifactStatusRecord → ArtifactKind → Records → Records
add_spec rec spec m = put rec.id rec m
add_spec rec _ m = m

-- The three maps, each from what it holds already: a later record takes the place of an earlier one
-- with its key.
unfoldable pub bundles_from : Records → List ArtifactStatusRecord → Records
unfolding put
bundles_from m [] = m
bundles_from m (rec ∷ records) = bundles_from (add_bundle rec rec.kind m) records

unfoldable pub citers_from : Records → List ArtifactStatusRecord → Records
unfolding put
citers_from m [] = m
citers_from m (rec ∷ records) = citers_from (add_citer rec rec.kind m) records

unfoldable pub specs_from : Records → List ArtifactStatusRecord → Records
unfolding put
specs_from m [] = m
specs_from m (rec ∷ records) = specs_from (add_spec rec rec.kind m) records

abbrev pub Flags : Type 0
Flags = List (String × String)

-- `m[a][b]`
unfoldable pub has_flag : String → String → Flags → Bool
has_flag a b [] = false
has_flag a b ((x, y) ∷ flags) = (x == a && y == b) || has_flag a b flags

-- `staleTraceRef`
pub record StaleTraceRef : Type 0 where
  pub ref : TraceRef
  pub current_version : String
  pub citer_id : String
  pub citer_kind : ArtifactKind
  pub bump : String

-- What the loop over the references has gathered.
pub record Gathered : Type 0 where
  pub found : List Violation
  pub stale_refs : List StaleTraceRef
  pub covered : Flags
  pub lapsed : Flags

abbrev pub nothing_gathered : Gathered
nothing_gathered = record { found = []; stale_refs = []; covered = []; lapsed = [] }

unfoldable pub not_implemented :
    TraceRef → ArtifactStatusRecord → ArtifactStatusRecord → String → Violation
unfolding concat
not_implemented ref target citer version =
    record (new_violation step_requirement_traceability ref.citing_path
      (concat (
        "delivered bundle " ∷ ref.bundle_name ∷ " is cited by non-implemented spec " ∷ citer.id
        ∷ " (" ∷ citer.status ∷ "); delivered coverage requires every citing spec to be implemented"
        ∷ []))
      "error") {
        trace = some (record {
          bundle = ref.bundle_name;
          bundle_maturity = target.status;
          req_id = ref.req_id;
          req_version = version;
          gap_kind = "citing_spec_not_implemented";
          remedy = "implement_spec";
          pinned_version = "";
          bump = "";
          citing_artifact = citer.id;
          via = "";
        });
      }

-- A reference of a retired citer: only that of a spec is remembered.
unfoldable pub add_lapsed : TraceRef → ArtifactStatusRecord → Gathered → Gathered
add_lapsed ref citer rest =
    if is_spec citer.kind
    then record rest { lapsed = (ref.bundle_name, ref.req_id) ∷ rest.lapsed }
    else rest

-- A reference of a live citer to a live bundle, before what the references behind it add.
unfoldable pub add_live :
    TraceRef
    → ArtifactStatusRecord
    → ArtifactStatusRecord
    → String
    → String × Bool
    → Gathered
    → Gathered
unfolding not_implemented
add_live ref target citer version (bump, stale) rest = record {
  found =
      if is_success target.class && is_spec citer.kind && not (is_success citer.class)
      then not_implemented ref target citer version ∷ rest.found
      else rest.found;
  stale_refs =
      if stale
      then (record {
        ref = ref;
        current_version = version;
        citer_id = citer.id;
        citer_kind = citer.kind;
        bump = bump;
      })
        ∷ rest.stale_refs
      else rest.stale_refs;
  covered =
      if supports_coverage citer.kind citer.class && not stale
      then (ref.bundle_name, ref.req_id) ∷ rest.covered
      else rest.covered;
  lapsed = rest.lapsed;
}

unfoldable pub add_ref :
    TraceRef → Option ArtifactStatusRecord → Option ArtifactStatusRecord → Gathered → Gathered
unfolding add_lapsed add_live stale_pin_verdict
add_ref ref (some target) (some citer) rest =
    let version = bundle_req_version target ref.req_id in
    if is_retired_class target.class
    then rest
    else if is_retired_class citer.class
    then add_lapsed ref citer rest
    else add_live ref target citer version (stale_pin_verdict ref.pin_version version) rest
add_ref ref _ _ rest = rest

-- The loop over the references. It reads nothing that it gathers, so what the references behind one
-- add is computed first.
unfoldable pub gather : Records → Records → List TraceRef → Gathered
unfolding lookup add_ref normalize_path
gather bundles citers [] = nothing_gathered
gather bundles citers (ref ∷ refs) =
    add_ref ref (lookup ref.bundle_name bundles) (lookup (normalize_path "" ref.citing_path) citers)
      (gather bundles citers refs)
