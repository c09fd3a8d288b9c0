-- ===== src/Gate/Coverage/NoVacuousPass.antt =====
-- What a passing coverage step says of the changed files.
use backstop_core.Prelude.{
  ℕ, String, Bool, true, false, ◌&&◌, List, [], ◌∷◌, some, ◌≡◌, refl, sym, ap, ◌∙◌, subst, inl, inr,
  In, Bool-cases, any, is_empty, if_true, if_false,
}
use mathlib.Core.Option.{some-injective}
use backstop_core.FilePath.{normalize_path}
use backstop_core.Text.Split.{sort_strings}
use backstop_core.Gate.Scope.{GateScope, is_all}
use backstop_core.Gate.StatusDrift.{is_error}
use backstop_core.Gate.Violation.{Violation, Status, StepResult}
use backstop_core.Gate.Coverage.{
  CoverageRecord, SourceClassifier, Metrics, index_coverage_by_path_metric,
  resolve_coverage_records_for_path, scope_has_changed_files, must_measure,
  coverage_path_in_diff_scope, coverage_paths_in_scope, changed_paths,
}
use backstop_core.Gate.Coverage.Thresholds.{
  SpecVerification, coverage_thresholds_for_scope, declared_coverage_metrics,
}
use backstop_core.Gate.Coverage.Judge.{judge_files, collisions, root_of}
use backstop_core.Gate.Coverage.Step.{status_of, coverage_violations, coverage_threshold_step}
use backstop_core.Gate.Coverage.Sets.{In-add_to_set, add_to_set-In, In-sort_strings, any_append}
use backstop_core.Gate.Coverage.Covered.{Quiet, Covered, AllMeasured, judge_files-Covered}

module _ (quote : String → String) (matches : String → String → Bool)
    (on_disk : String → Bool) where
  changed_paths-In :
      (c : SourceClassifier) (s : GateScope) (files : List String) (f : String)
      → In f files
      → must_measure matches on_disk c s (normalize_path s.project_root f) ≡ true
      → In (normalize_path s.project_root f) (changed_paths matches on_disk c s files)
  unfolding changed_paths
  changed_paths-In c s [] f i m = absurd i
  changed_paths-In c s (g ∷ files) f i m = elim i [
    | inl e ↦
        subst
          (λ x.
            must_measure matches on_disk c s (normalize_path s.project_root x) ≡ true
            → In (normalize_path s.project_root x) (changed_paths matches on_disk c s (g ∷ files)))
          e (λ k. rw k (In-add_to_set (normalize_path s.project_root g) _)) m
    | inr j ↦
        elim (Bool-cases (must_measure matches on_disk c s (normalize_path s.project_root g))) [
          | inl k ↦ rw k (add_to_set-In _ _ _ (changed_paths-In c s files f j m))
          | inr k ↦ rw k (changed_paths-In c s files f j m)
        ]
  ]

  pass-Quiet : (violations : List Violation) → status_of violations ≡ Status.pass → Quiet violations
  pass-Quiet violations h = elim (Bool-cases (any is_error violations)) [
    | inl e ↦ absurd (cc (rw e at h))
    | inr e ↦ e
  ]

  collisions-none :
      (root : String) (keys : List String) → Quiet (collisions quote root keys) → keys ≡ []
  unfolding collisions any
  collisions-none root [] h = refl
  collisions-none root (key ∷ keys) h = absurd (cc)

  In-nonempty : (x : String) (xs : List String) → In x xs → is_empty xs ≡ false
  In-nonempty x [] i = absurd i
  In-nonempty x (y ∷ xs) i = refl

  -- A passing step is no absent capability, and measured what there was to measure.
  step-Quiet :
      (records : List CoverageRecord) (specs : List SpecVerification) (s : GateScope)
      (c : SourceClassifier) (floor : ℕ) (r : StepResult)
      → is_empty (coverage_paths_in_scope matches on_disk records (some s) c) ≡ false
      → coverage_threshold_step quote matches on_disk records specs (some s) c floor ≡ some r
      → r.status ≡ Status.pass
      → Quiet (
          coverage_violations quote records specs
            (some s)
            floor
            (coverage_paths_in_scope matches on_disk records (some s) c))
  unfolding coverage_threshold_step
  step-Quiet records specs s c floor r n h pass =
      elim (Bool-cases (is_empty c.source && scope_has_changed_files (some s))) [
        | inl e ↦ absurd (
            cc (
              ap (λ (x : StepResult). x.status) (some-injective _ r (sym (if_true _ _ e) ∙ h)),
              pass,
            ))
        | inr e ↦
            pass-Quiet
              (coverage_violations quote records specs (some s) floor
                (coverage_paths_in_scope matches on_disk records (some s) c))
              (ap (λ (x : StepResult). x.status)
                  (some-injective _ r (sym (if_false _ _ n) ∙ sym (if_false _ _ e) ∙ h))
                ∙ pass)
      ]

  -- In a diff or file scope, if the step passes, no record is a duplicate, and each changed file
  -- that is measurable source and on disk has records: one of each declared metric, if the scope
  -- contains the file, and each record is excluded, or has nothing to cover, or has no threshold,
  -- or covers as much as its threshold asks, or has counts with which a product of the comparison
  -- overflows. The records of the file are marked as measured.
  pub coverage_threshold_step-Covered :
      (records : List CoverageRecord) (specs : List SpecVerification) (s : GateScope)
      (c : SourceClassifier) (floor : ℕ) (r : StepResult) (f : String)
      → is_all s.mode ≡ false
      → coverage_threshold_step quote matches on_disk records specs (some s) c floor ≡ some r
      → r.status ≡ Status.pass
      → In f s.files
      → must_measure matches on_disk c s (normalize_path s.project_root f) ≡ true
      → ((metrics : Metrics)
          → resolve_coverage_records_for_path
              (index_coverage_by_path_metric records).by_path_metric
              (normalize_path s.project_root f)
            ≡ some metrics
          → AllMeasured metrics)
      → ((index_coverage_by_path_metric records).dup_keys ≡ [])
        × ((metrics : Metrics) × (resolve_coverage_records_for_path
                (index_coverage_by_path_metric records).by_path_metric
                (normalize_path s.project_root f)
              ≡ some metrics)
            × Covered
                (coverage_thresholds_for_scope specs (some s) floor)
                (coverage_path_in_diff_scope (normalize_path s.project_root f) (some s))
                (declared_coverage_metrics (coverage_thresholds_for_scope specs (some s) floor))
                metrics)
  unfolding coverage_violations coverage_paths_in_scope
  coverage_threshold_step-Covered records specs s c floor r f narrowed h pass i m seen =
      let path = normalize_path s.project_root f in
      let listed = subst (In path) (ap sort_strings (sym (if_false _ _ narrowed))) (
        In-sort_strings path (changed_paths matches on_disk c s s.files)
          (changed_paths-In c s s.files f i m)) in
      let thresholds = coverage_thresholds_for_scope specs (some s) floor in
      let declared = declared_coverage_metrics thresholds in
      let indexed = index_coverage_by_path_metric records in
      let paths = coverage_paths_in_scope matches on_disk records (some s) c in
      let (keys, files) =
        any_append is_error (collisions quote (root_of (some s)) indexed.dup_keys)
          (judge_files quote (root_of (some s)) thresholds (some s) declared indexed.by_path_metric
            paths)
          (step-Quiet records specs s c floor r (In-nonempty path paths listed) h pass) in
      (
        collisions-none (root_of (some s)) indexed.dup_keys keys,
        judge_files-Covered quote (root_of (some s)) thresholds (some s) declared
            indexed.by_path_metric paths files path seen listed,
      )
