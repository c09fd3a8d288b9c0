-- ===== src/Gate/StatusDrift/Promises.antt =====
-- When the drift of statuses fails, and what its split keeps.
use backstop_core.Prelude.{
  ◌+◌, String, Bool, false, not, ◌||◌, List, [], ◌∷◌, ◌++◌, map, keep, any, length, ◌≡◌, refl,
  arith, ap, ◌∙◌,
}
use backstop_core.Gate.Violation.{is_fail}
use backstop_core.Gate.StatusDrift.{
  StatusClass, success_terminal, retired_terminal, non_terminal, MandatedTest, ArtifactStatusRecord,
  is_absent, broken_promise, drift_by_class, drift_violations, is_error, drift_step_result,
  classify_status_drift, split_drift_result,
}

any-append :
    {A : Type 0} (p : A → Bool) (xs ys : List A) → any p (xs ++ ys) ≡ (any p xs || any p ys)
unfolding any
any-append p [] ys = refl
any-append p (x ∷ xs) ys = ground (arith, any-append p xs ys)

pub any-keep_same : {A : Type 0} (p : A → Bool) (xs : List A) → any p (keep p xs) ≡ any p xs
unfolding any keep
any-keep_same p [] = refl
any-keep_same p (x ∷ xs) = ground (arith, any-keep_same p xs)

any-keep_other :
    {A : Type 0} (p : A → Bool) (xs : List A) → any p (keep (λ x. not (p x)) xs) ≡ false
unfolding any keep
any-keep_other p [] = refl
any-keep_other p (x ∷ xs) = ground (arith, any-keep_other p xs)

-- An artifact that breaks its promise: its status says delivered and a test that it mandates does
-- not exist.
abbrev pub breaks_by_class : (String → Bool) → StatusClass → List MandatedTest → Bool
breaks_by_class present success_terminal mts = any (is_absent present) mts
breaks_by_class present _ mts = false

abbrev pub breaks : (String → Bool) → ArtifactStatusRecord → Bool
breaks present rec = breaks_by_class present rec.class rec.mandated_tests

module _ (present : String → Bool) where
  errors-promises :
      (rec : ArtifactStatusRecord) (mts : List MandatedTest)
      → any is_error (map (broken_promise present rec) (keep (is_absent present) mts))
        ≡ any (is_absent present) mts
  unfolding any keep
  errors-promises rec [] = refl
  errors-promises rec (mt ∷ mts) = ground (arith, errors-promises rec mts)

  errors-drift_by_class :
      (class : StatusClass) (rec : ArtifactStatusRecord)
      → any is_error (drift_by_class present class rec)
        ≡ breaks_by_class present class rec.mandated_tests
  unfolding drift_by_class any
  errors-drift_by_class success_terminal rec = errors-promises rec rec.mandated_tests
  errors-drift_by_class retired_terminal rec = refl
  errors-drift_by_class non_terminal rec = ground arith

  errors-drift_violations :
      (recs : List ArtifactStatusRecord)
      → any is_error (drift_violations present recs) ≡ any (breaks present) recs
  unfolding drift_violations any
  errors-drift_violations [] = refl
  errors-drift_violations (rec ∷ recs) =
      any-append is_error (drift_by_class present rec.class rec) (drift_violations present recs)
      ∙ ap (λ b. b || any is_error (drift_violations present recs))
          (errors-drift_by_class rec.class rec)
      ∙ ap (λ b. breaks present rec || b) (errors-drift_violations recs)

  -- The drift fails exactly when some artifact whose status says delivered mandates a test that does
  -- not exist; and of the two surfaces that it is split into, the policied one fails exactly then,
  -- while the advisory one never fails.
  pub classify_status_drift-fails :
      (recs : List ArtifactStatusRecord)
      → let combined = classify_status_drift present recs in
        (is_fail combined.status ≡ any (breaks present) recs)
        × (is_fail (split_drift_result combined).0.status ≡ any (breaks present) recs)
        × (is_fail (split_drift_result combined).1.status ≡ false)
  unfolding classify_status_drift split_drift_result drift_step_result
  classify_status_drift-fails recs =
      let vs = drift_violations present recs in
      (
        ground (arith, errors-drift_violations recs),
        ground (arith, any-keep_same is_error vs, errors-drift_violations recs),
        ground (arith, any-keep_other is_error vs),
      )

keep-partition :
    {A : Type 0} (p : A → Bool) (xs : List A)
    → length (keep p xs) + length (keep (λ x. not (p x)) xs) ≡ length xs
unfolding keep
keep-partition p [] = refl
keep-partition p (x ∷ xs) = ground (arith, keep-partition p xs)
