-- ===== src/Gate/Coverage/Covered.antt =====
-- What a file with no error among its findings was measured for.
use backstop_core.Prelude.{
  ℕ, ◌*◌, ◌≤◌, ◌<◌, ◌%◌, ◌^◌, ltb→lt, String, Bool, true, false, List, [], ◌∷◌, Option, none, some,
  ◌≡◌, ◌≢◌, refl, sym, ap, ◌∙◌, subst, arith, ◌⊎◌, inl, inr, In, Bool-cases, Option-cases, any,
  lookup, map, ◌==◌, eq_iff, eqb, ltb, if_true, if_false,
}
use backstop_core.Gate.Scope.{GateScope}
use backstop_core.Gate.StatusDrift.{is_error}
use backstop_core.Gate.Violation.{Violation}
use backstop_core.Gate.Coverage.{
  CoverageRecord, Metrics, Index, resolve_coverage_records_for_path, sorted_coverage_metrics,
  coverage_path_in_diff_scope,
}
use backstop_core.Gate.Coverage.Thresholds.{Selection, coverage_threshold_for_metric}
use backstop_core.Gate.Coverage.Judge.{
  int_ltb, coverage_below_threshold, judge_record, judge_metric, judge_metrics, judge_file,
  judge_files, missing_metrics, if_missing, unmeasured,
}
use backstop_core.Gate.Coverage.Sets.{In-sort_strings, any_append}

abbrev pub Quiet : List Violation → Type 0
Quiet violations = any is_error violations ≡ false

-- A product of the comparison is not an `int`, as it is too when a count is negative.
abbrev pub Overflows : ℕ → CoverageRecord → Type 0
Overflows threshold r = (2 ^ 63 ≤ r.covered * 100) ⊎ (2 ^ 63 ≤ r.total * threshold)

-- A record that is excluded, or measured with nothing to cover, or has no threshold, or covers what
-- its threshold asks, or whose comparison is not one of numbers.
abbrev pub Accepted : ℕ → CoverageRecord → Type 0
Accepted threshold r =
    (r.excluded ≡ true)
    ⊎ (((r.total ≡ 0) × (r.measured ≡ true))
        ⊎ ((threshold ≡ 0) ⊎ (Overflows threshold r ⊎ (r.total * threshold ≤ r.covered * 100))))

abbrev pub AllMeasured : Metrics → Type 0
AllMeasured metrics =
    (metric : String) (r : CoverageRecord) → lookup metric metrics ≡ some r → r.measured ≡ true

int_ltb-small : (a b : ℕ) → a < 2 ^ 63 → b < 2 ^ 63 → int_ltb (a % 2 ^ 64) (b % 2 ^ 64) ≡ ltb a b
unfolding int_ltb
int_ltb-small a b h k = ground arith

ge_of_not_ltb : (a b : ℕ) → ltb a b ≡ false → b ≤ a
ge_of_not_ltb a b h = ground arith

-- A comparison of numbers that is not below.
not_below :
    (threshold : ℕ) (r : CoverageRecord)
    → coverage_below_threshold r.covered r.total threshold ≡ false
    → Overflows threshold r ⊎ (r.total * threshold ≤ r.covered * 100)
unfolding coverage_below_threshold
not_below threshold r b = elim (Bool-cases (ltb (r.covered * 100) (2 ^ 63))) [
  | inr o ↦ inl (inl (ground arith))
  | inl c ↦ elim (Bool-cases (ltb (r.total * threshold) (2 ^ 63))) [
    | inr o ↦ inl (inr (ground arith))
    | inl t ↦ inr (
        ge_of_not_ltb (r.covered * 100) (r.total * threshold) (
          sym (int_ltb-small (r.covered * 100) (r.total * threshold) (ltb→lt _ _ c) (ltb→lt _ _ t))
          ∙ b))
  ]
]

-- A file with records, all of them accepted, and a record for each declared metric.
abbrev pub Covered : Selection → Bool → List String → Metrics → Type 0
Covered thresholds changed declared metrics =
    ((metric : String) → changed ≡ true → In metric declared → lookup metric metrics ≢ none)
    × ((metric : String) (r : CoverageRecord)
        → lookup metric metrics ≡ some r
        → Accepted (coverage_threshold_for_metric thresholds metric) r)

In-keys :
    (metric : String) (metrics : Metrics) (r : CoverageRecord)
    → lookup metric metrics ≡ some r
    → In metric (map (λ e. e.0) metrics)
unfolding lookup
In-keys metric [] r h = absurd (cc)
In-keys metric ((j, w) ∷ metrics) r h = elim (Bool-cases (j == metric)) [
  | inl e ↦ inl ((eq_iff j metric).0 e)
  | inr e ↦ inr (In-keys metric metrics r (sym (if_false _ _ e) ∙ h))
]

module _ (quote : String → String) (root : String) where
  judge_record-Accepted :
      (path : String) (changed : Bool) (threshold : ℕ) (r : CoverageRecord)
      → r.measured ≡ true
      → Quiet (judge_record quote root path changed threshold r)
      → Accepted threshold r
  unfolding judge_record any
  judge_record-Accepted path changed threshold r seen h = elim (Bool-cases r.excluded) [
    | inl e ↦ inl e
    | inr e ↦ elim (Bool-cases (eqb r.total 0)) [
      | inl z ↦ inr (inl (ground arith, seen))
      | inr z ↦ elim (Bool-cases (eqb threshold 0)) [
        | inl t ↦ inr (inr (inl (ground arith)))
        | inr t ↦ elim (Bool-cases (coverage_below_threshold r.covered r.total threshold)) [
          | inr b ↦ inr (inr (inr (not_below threshold r b)))
          | inl b ↦ absurd (cc (rw (e, z, t, b) at h))
        ]
      ]
    ]
  ]

  missing_metrics-none :
      (path : String) (metrics : Metrics) (declared : List String)
      → Quiet (missing_metrics quote root path metrics declared)
      → (metric : String) → In metric declared
      → lookup metric metrics ≢ none
  unfolding missing_metrics any
  missing_metrics-none path metrics [] h metric i = absurd i
  missing_metrics-none path metrics (m ∷ declared) h metric i =
      elim (Option-cases (lookup m metrics)) [
        | inl n ↦ absurd (
            cc (
              subst
                (λ o. Quiet (
                  if_missing quote root path m o
                    (missing_metrics quote root path metrics declared)))
                n h))
        | inr (r, q) ↦ elim i [
          | inl e ↦ λ n. absurd (cc (sym q ∙ ap (λ x. lookup x metrics) e ∙ n))
          | inr j ↦
              missing_metrics-none path metrics declared
                (subst
                  (λ o. Quiet (
                    if_missing quote root path m o
                      (missing_metrics quote root path metrics declared)))
                  q h)
                metric j
        ]
      ]

  unmeasured-Loud : (path : String) → Quiet (unmeasured quote root path ∷ []) → ⊥
  unfolding any
  unmeasured-Loud path h = absurd (cc)

  module _ (thresholds : Selection) where
    judge_metrics-Accepted :
        (path : String) (changed : Bool) (metrics : Metrics) (names : List String)
        → AllMeasured metrics
        → Quiet (judge_metrics quote root thresholds path changed metrics names)
        → (metric : String) (r : CoverageRecord) → In metric names
        → lookup metric metrics ≡ some r
        → Accepted (coverage_threshold_for_metric thresholds metric) r
    unfolding judge_metrics
    judge_metrics-Accepted path changed metrics [] seen h metric r i q = absurd i
    judge_metrics-Accepted path changed metrics (m ∷ names) seen h metric r i q =
        let (here, rest) = any_append is_error _ _ h in
        elim i [
          | inr j ↦ judge_metrics-Accepted path changed metrics names seen rest metric r j q
          | inl e ↦
              judge_record-Accepted path changed (coverage_threshold_for_metric thresholds metric) r
                (seen metric r q)
                (subst
                  (λ o. Quiet (
                    judge_metric quote root path changed
                      (coverage_threshold_for_metric thresholds metric) o))
                  q
                  (subst
                    (λ x. Quiet (
                      judge_metric quote root path changed
                        (coverage_threshold_for_metric thresholds x) (lookup x metrics)))
                    e here))
        ]

    judge_file-Covered :
        (path : String) (changed : Bool) (declared : List String) (o : Option Metrics)
        → ((metrics : Metrics) → o ≡ some metrics → AllMeasured metrics)
        → Quiet (judge_file quote root thresholds path changed declared o)
        → (metrics : Metrics) × (o ≡ some metrics) × Covered thresholds changed declared metrics
    judge_file-Covered path changed declared none seen h = absurd (unmeasured-Loud path h)
    judge_file-Covered path changed declared (some metrics) seen h =
        let (missing, judged) = any_append is_error _ _ h in
        (
          metrics,
          refl,
          (
            λ metric e i.
                missing_metrics-none path metrics declared
                  (sym (ap (any is_error) (if_true _ _ e)) ∙ missing) metric i,
            λ metric r q.
                judge_metrics-Accepted path changed metrics (sorted_coverage_metrics metrics)
                  (seen metrics refl) judged metric r
                  (In-sort_strings metric (map (λ e. e.0) metrics) (In-keys metric metrics r q)) q,
          ),
        )

    pub judge_files-Covered :
        (scope : Option GateScope) (declared : List String) (index : Index) (paths : List String)
        → Quiet (judge_files quote root thresholds scope declared index paths)
        → (path : String)
        → ((metrics : Metrics)
            → resolve_coverage_records_for_path index path ≡ some metrics
            → AllMeasured metrics)
        → In path paths
        → (metrics : Metrics) × (resolve_coverage_records_for_path index path ≡ some metrics)
          × Covered thresholds (coverage_path_in_diff_scope path scope) declared metrics
    unfolding judge_files
    judge_files-Covered scope declared index [] h path seen i = absurd i
    judge_files-Covered scope declared index (p ∷ paths) h path seen i =
        let (here, rest) = any_append is_error _ _ h in
        elim i [
          | inr j ↦ judge_files-Covered scope declared index paths rest path seen j
          | inl e ↦
              subst
                (λ x.
                  (metrics : Metrics) × (resolve_coverage_records_for_path index x ≡ some metrics)
                  × Covered thresholds (coverage_path_in_diff_scope x scope) declared metrics)
                e
                (judge_file-Covered p (coverage_path_in_diff_scope p scope) declared
                  (resolve_coverage_records_for_path index p)
                  (subst
                    (λ x.
                      (metrics : Metrics)
                      → resolve_coverage_records_for_path index x ≡ some metrics
                      → AllMeasured metrics)
                    (sym e) seen)
                  here)
        ]
