-- ===== src/Gate/Coverage.antt =====
-- pkg/gate/step_coverage.go: coverage records and the index over them, the files that a run has to
-- measure, and the classifier of pkg/gate/classification.go that says which files are source.
pub mod Thresholds
pub mod Judge
pub mod Step
pub mod Sets
pub mod Covered
pub mod NoVacuousPass
use backstop_core.Prelude.{
  ℕ, ◌+◌, String, Char, code, Bool, true, false, not, ◌&&◌, ◌||◌, List, [], ◌∷◌, ◌++◌, Option, none,
  some, ◌==◌, eqb, any, is_empty, map, member, lookup, put, if◌then◌else◌,
}
use backstop_core.FilePath.{normalize_path}
use backstop_core.Text.Numbers.{concat}
use backstop_core.Text.Split.{sort_strings, contains}
use backstop_core.Gate.Scope.{ScopeMode, is_all, GateScope, scope_contains}

-- `CoverageRecord` of pkg/check/coverage.go. The counts are `int`s of 64 bits in two's complement,
-- written without sign: below `2 ^ 64`, from `2 ^ 63` on negative.
pub record CoverageRecord : Type 0 where
  pub path : String
  pub covered : ℕ
  pub total : ℕ
  pub measured : Bool
  pub excluded : Bool
  pub metric : String
  pub justification : String

-- `SourceClassifier`
pub record SourceClassifier : Type 0 where
  pub source : List String
  pub test : List String

abbrev pub Metrics : Type 0
Metrics = List (String × CoverageRecord)

abbrev pub Index : Type 0
Index = List (String × Metrics)

-- The index and the duplicate keys so far.
pub record Indexed : Type 0 where
  pub by_path_metric : Index
  pub dup_keys : List String

abbrev pub metrics_or_none : Option Metrics → Metrics
metrics_or_none none = []
metrics_or_none (some metrics) = metrics

dup_key : String → String → String
unfolding concat
dup_key path metric = concat (path ∷ "\t" ∷ metric ∷ [])

-- What one record does: a second record of a path and a metric is a duplicate key.
abbrev add_record : String → CoverageRecord → Metrics → Option CoverageRecord → Indexed → Indexed
add_record path r inner none x = record x {
  by_path_metric = put path (put r.metric r inner) x.by_path_metric;
}
add_record path r inner (some first) x = record x {
  dup_keys = x.dup_keys ++ dup_key path r.metric ∷ [];
}

unfoldable pub index_records : List CoverageRecord → Indexed → Indexed
unfolding lookup put normalize_path dup_key
index_records [] x = x
index_records (r ∷ records) x =
    let path = normalize_path "" r.path in
    let inner = metrics_or_none (lookup path x.by_path_metric) in
    index_records records (add_record path r inner (lookup r.metric inner) x)

-- `indexCoverageByPathMetric`
unfoldable pub index_coverage_by_path_metric : List CoverageRecord → Indexed
unfolding index_records
index_coverage_by_path_metric records =
    index_records records (record { by_path_metric = []; dup_keys = [] })

-- `strings.HasSuffix`
unfoldable pub has_suffix : String → String → Bool
has_suffix String.[] t = String.[] == t
has_suffix (String.◌∷◌ c s) t = String.◌∷◌ c s == t || has_suffix s t

unfoldable pub with_suffix : String → Index → List Metrics
unfolding has_suffix
with_suffix suffix [] = []
with_suffix suffix ((path, metrics) ∷ index) =
    let rest = with_suffix suffix index in if has_suffix path suffix then metrics ∷ rest else rest

abbrev pub only_one : List Metrics → Option Metrics
only_one (metrics ∷ []) = some metrics
only_one _ = none

abbrev resolve_in : Index → String → Option Metrics → Option Metrics
resolve_in index path (some metrics) = some metrics
resolve_in index path none =
    if not (contains path "/")
    then none
    else only_one (with_suffix (concat ("/" ∷ path ∷ [])) index)

-- `resolveCoverageRecordsForPath`
unfoldable pub resolve_coverage_records_for_path : Index → String → Option Metrics
unfolding lookup with_suffix contains concat
resolve_coverage_records_for_path index path = resolve_in index path (lookup path index)

-- `splitCoverageDupKey`
abbrev push_path : Char → String × String → String × String
push_path c (path, metric) = (String.◌∷◌ c path, metric)

unfoldable pub split_coverage_dup_key : String → String × String
split_coverage_dup_key String.[] = ("", "")
split_coverage_dup_key (String.◌∷◌ c s) =
    let rest = split_coverage_dup_key s in if eqb (code c) 9 then ("", s) else push_path c rest

-- `sortedCoverageMetrics`
abbrev pub sorted_coverage_metrics : Metrics → List String
sorted_coverage_metrics metrics = sort_strings (map (λ e. e.0) metrics)

-- `scopeHasChangedFiles`
abbrev pub scope_has_changed_files : Option GateScope → Bool
scope_has_changed_files none = false
scope_has_changed_files (some s) = not (is_all s.mode) && not (is_empty s.files)

-- `coveragePathInDiffScope`
unfoldable pub coverage_path_in_diff_scope : String → Option GateScope → Bool
unfolding scope_contains
coverage_path_in_diff_scope path none = false
coverage_path_in_diff_scope path (some s) =
    if is_all s.mode then false else scope_contains (some s) path

abbrev pub add_to_set : String → List String → List String
add_to_set x set = if member x set then set else x ∷ set

unfoldable pub record_paths : List CoverageRecord → List String
unfolding normalize_path member
record_paths [] = []
record_paths (r ∷ records) = add_to_set (normalize_path "" r.path) (record_paths records)

-- `matches` is the matcher of one glob, `on_disk` whether a file of the project exists.
module _ (matches : String → String → Bool) (on_disk : String → Bool) where
  -- `matchesAnyGlob`
  abbrev pub matches_any_glob : List String → String → Bool
  matches_any_glob globs path = any (λ glob. matches glob path) globs

  -- `IsMeasurableSource`
  unfoldable pub is_measurable_source : SourceClassifier → String → Bool
  unfolding any normalize_path
  is_measurable_source c path =
      let norm = normalize_path "" path in
      matches_any_glob c.source norm && not (matches_any_glob c.test norm)

  -- A changed file that has to be measured: source, and not deleted as far as that can be seen.
  abbrev pub must_measure : SourceClassifier → GateScope → String → Bool
  must_measure c s path = is_measurable_source c path && (s.project_root == "" || on_disk path)

  unfoldable pub changed_paths : SourceClassifier → GateScope → List String → List String
  unfolding is_measurable_source normalize_path member
  changed_paths c s [] = []
  changed_paths c s (f ∷ files) =
      let rest = changed_paths c s files in
      let path = normalize_path s.project_root f in
      if must_measure c s path then add_to_set path rest else rest

  -- `coveragePathsInScope`
  unfoldable pub coverage_paths_in_scope :
      List CoverageRecord → Option GateScope → SourceClassifier → List String
  unfolding record_paths changed_paths sort_strings
  coverage_paths_in_scope records none c = sort_strings (record_paths records)
  coverage_paths_in_scope records (some s) c =
      sort_strings (if is_all s.mode then record_paths records else changed_paths c s s.files)
