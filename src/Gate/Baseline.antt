-- ===== src/Gate/Baseline.antt =====
-- pkg/gate/baseline.go: comparison of the current findings with a baseline. Reading and writing the
-- artifact file is not modelled; `Violations` is what the comparison reads of it.
pub mod Index
pub mod Ratchet
pub mod SelfCompare
use backstop_core.Prelude.{
  String, Bool, true, false, not, ◌&&◌, ◌||◌, List, [], ◌∷◌, Option, none, some, ◌==◌, is_empty,
  lookup, put, member, if◌then◌else◌,
}
use backstop_core.Text.{trim_space}
use backstop_core.Gate.Violation.{Violation}
use backstop_core.Gate.Scope.{ScopeMode, GateScope, is_all, scope_contains, filter_violations}
use backstop_core.Gate.Identity.{enrich}

-- `BaselineArtifact`, as far as the comparison reads it.
pub record BaselineArtifact : Type 0 where
  pub violations : List Violation

pub record BaselineComparison : Type 0 where
  pub new_violations : List Violation
  pub fixed_violations : List Violation
  pub seeded_violations : List Violation

pub record BaselineCompareOptions : Type 0 where
  pub scope : Option GateScope
  pub allow_rule_set_change_seeding : Bool
  pub changed_files : List String

-- `scopeTouches`
unfoldable pub scope_touches : Option GateScope → String → Bool
scope_touches none file = false
scope_touches (some s) file = not (is_all s.mode) && scope_contains (some s) file

-- `isExistingCodeViolation`
unfoldable pub is_existing_code : Violation → List String → Bool
unfolding member
is_existing_code v changed =
    let file = trim_space v.file in
    if is_empty changed then true else if file == "" then false else not (member file changed)

abbrev pub scope_is_all : Option GateScope → Bool
scope_is_all none = false
scope_is_all (some s) = is_all s.mode

-- `options.Scope != nil && options.Scope.Mode != GateScopeModeAll`
abbrev pub is_narrowed : Option GateScope → Bool
is_narrowed none = false
is_narrowed (some s) = not (is_all s.mode)

-- What the comparison does with one finding.
pub data Verdict : Type 0 where
  grandfathered seeded net_new : Verdict

abbrev pub add_to_new : Verdict → Violation → List Violation → List Violation
add_to_new net_new e vs = e ∷ vs
add_to_new _ e vs = vs

abbrev pub add_to_seeded : Verdict → Violation → List Violation → List Violation
add_to_seeded seeded e vs = e ∷ vs
add_to_seeded _ e vs = vs

module _ (hash_string : String → String) where
  -- `baselineSet` and `currentSet`: the enriched findings by hash, the last one of each hash.
  unfoldable pub index_by_hash :
      List Violation → List (String × Violation) → List (String × Violation)
  unfolding put
  index_by_hash [] m = m
  index_by_hash (v ∷ vs) m =
      let e = enrich hash_string v in index_by_hash vs (put e.identity_hash e m)

  unfoldable pub has_hash : String → List (String × Violation) → Bool
  unfolding lookup
  has_hash h m = elim (lookup h m) [ none ↦ false | some v ↦ true ]

  -- The body of the loop over the current findings.
  unfoldable pub judge : BaselineCompareOptions → List (String × Violation) → Violation → Verdict
  unfolding has_hash scope_touches is_existing_code
  judge o base v =
      let e = enrich hash_string v in
      if has_hash e.identity_hash base && not (scope_touches o.scope v.file)
      then grandfathered
      else if o.allow_rule_set_change_seeding
          && scope_is_all o.scope
          && is_existing_code e o.changed_files
      then seeded
      else net_new

  unfoldable pub collect_new :
      BaselineCompareOptions → List (String × Violation) → List Violation → List Violation
  unfolding judge
  collect_new o base [] = []
  collect_new o base (v ∷ vs) =
      add_to_new (judge o base v) (enrich hash_string v) (collect_new o base vs)

  unfoldable pub collect_seeded :
      BaselineCompareOptions → List (String × Violation) → List Violation → List Violation
  unfolding judge
  collect_seeded o base [] = []
  collect_seeded o base (v ∷ vs) =
      add_to_seeded (judge o base v) (enrich hash_string v) (collect_seeded o base vs)

  -- Whether the loop over `baselineSet` reports an entry as fixed.
  unfoldable pub is_fixed :
      BaselineCompareOptions → List (String × Violation) → String → Violation → Bool
  unfolding has_hash
  is_fixed o current key old =
      not (has_hash key current)
      && not (is_narrowed o.scope && (old.file == "" || not (scope_contains o.scope old.file)))

  unfoldable pub collect_fixed :
      BaselineCompareOptions
      → List (String × Violation)
      → List (String × Violation)
      → List Violation
  unfolding is_fixed
  collect_fixed o current [] = []
  collect_fixed o current ((key, old) ∷ rest) =
      let others = collect_fixed o current rest in
      if is_fixed o current key old then old ∷ others else others

  abbrev pub no_comparison : BaselineComparison
  no_comparison = record { new_violations = []; fixed_violations = []; seeded_violations = [] }

  -- `CompareBaseline`; `none` is the nil baseline.
  unfoldable pub compare_baseline :
      List Violation → Option BaselineArtifact → BaselineCompareOptions → BaselineComparison
  unfolding index_by_hash collect_new collect_seeded collect_fixed filter_violations
  compare_baseline current none o = no_comparison
  compare_baseline current (some b) o =
      let considered = filter_violations o.scope current in
      let base = index_by_hash b.violations [] in
      let now = index_by_hash considered [] in
      record {
        new_violations = collect_new o base considered;
        fixed_violations = collect_fixed o now base;
        seeded_violations = collect_seeded o base considered;
      }
