-- ===== src/Gate/Result/Tally.antt =====
-- The summary counts of a run agree with its steps.
use backstop_core.Prelude.{
  ℕ, ◌+◌, String, Bool, true, List, [], ◌∷◌, ◌++◌, Option, ◌≡◌, refl, ◌∙◌, ap, sym, arith, not,
  ◌&&◌, eqb, length, length-map, map,
}
use mathlib.Core.List.{append-nil, append_assoc}
use backstop_core.Gate.Violation.{Violation, is_fail, StepResult}
use backstop_core.Gate.Scope.{GateScope}
use backstop_core.Gate.Identity.{enrich}
use backstop_core.Gate.Result.{
  GateResult, tally_by_severity, enrich_step, add_step, add_steps, empty_result, new_gate_result,
}

abbrev pub steps_counted : GateResult → ℕ
steps_counted r = r.steps_passed + r.steps_failed + r.steps_skipped + r.steps_warned

abbrev pub entries_counted : GateResult → ℕ
entries_counted r = r.total_violations + r.total_warnings

-- The findings that the steps report, however severe.
abbrev pub entries : List StepResult → ℕ
entries [] = 0
entries (s ∷ ss) = length s.violations + entries ss

-- Whether no step of a list has failed.
abbrev pub none_failed : List StepResult → Bool
none_failed [] = true
none_failed (s ∷ ss) = not (is_fail s.status) && none_failed ss

tally_sum : (vs : List Violation) → (tally_by_severity vs).0 + (tally_by_severity vs).1 ≡ length vs
unfolding tally_by_severity
tally_sum [] = refl
tally_sum (v ∷ vs) = ground (arith, tally_sum vs)

module _ (hash_string : String → String) where
  counted-add_step :
      (s : StepResult) (r : GateResult)
      → steps_counted (add_step hash_string s r) ≡ steps_counted r + 1
  unfolding add_step
  counted-add_step s r = ground arith

  counted-add_steps :
      (ss : List StepResult) (r : GateResult)
      → steps_counted (add_steps hash_string ss r) ≡ steps_counted r + length ss
  unfolding add_steps
  counted-add_steps [] r = omega arith
  counted-add_steps (s ∷ ss) r =
      omega (arith, counted-add_steps ss (add_step hash_string s r), counted-add_step s r)

  entries-add_step :
      (s : StepResult) (r : GateResult)
      → entries_counted (add_step hash_string s r) ≡ entries_counted r + length s.violations
  unfolding add_step
  entries-add_step s r = ground (
    arith,
    tally_sum (map (enrich hash_string) s.violations),
    length-map (enrich hash_string) s.violations,
  )

  entries-add_steps :
      (ss : List StepResult) (r : GateResult)
      → entries_counted (add_steps hash_string ss r) ≡ entries_counted r + entries ss
  unfolding add_steps
  entries-add_steps [] r = omega arith
  entries-add_steps (s ∷ ss) r =
      omega (arith, entries-add_steps ss (add_step hash_string s r), entries-add_step s r)

  pass-add_step :
      (s : StepResult) (r : GateResult)
      → (add_step hash_string s r).pass ≡ (r.pass && not (is_fail s.status))
  unfolding add_step
  pass-add_step s r = ground arith

  pass-add_steps :
      (ss : List StepResult) (r : GateResult)
      → (add_steps hash_string ss r).pass ≡ (r.pass && none_failed ss)
  unfolding add_steps
  pass-add_steps [] r = ground arith
  pass-add_steps (s ∷ ss) r =
      ground (arith, pass-add_steps ss (add_step hash_string s r), pass-add_step s r)

  failed-add_step :
      (s : StepResult) (r : GateResult)
      → r.pass ≡ eqb r.steps_failed 0
      → (add_step hash_string s r).pass ≡ eqb (add_step hash_string s r).steps_failed 0
  unfolding add_step
  failed-add_step s r h = ground arith

  failed-add_steps :
      (ss : List StepResult) (r : GateResult)
      → r.pass ≡ eqb r.steps_failed 0
      → (add_steps hash_string ss r).pass ≡ eqb (add_steps hash_string ss r).steps_failed 0
  unfolding add_steps
  failed-add_steps [] r h = h
  failed-add_steps (s ∷ ss) r h =
      failed-add_steps ss (add_step hash_string s r) (failed-add_step s r h)

  steps-add_step :
      (s : StepResult) (r : GateResult)
      → (add_step hash_string s r).steps ≡ r.steps ++ enrich_step hash_string s ∷ []
  unfolding add_step
  steps-add_step s r = ground arith

  steps-add_steps :
      (ss : List StepResult) (r : GateResult)
      → (add_steps hash_string ss r).steps ≡ r.steps ++ map (enrich_step hash_string) ss
  unfolding add_steps
  steps-add_steps [] r = sym (append-nil r.steps)
  steps-add_steps (s ∷ ss) r =
      steps-add_steps ss (add_step hash_string s r)
      ∙ ap (λ l. l ++ map (enrich_step hash_string) ss) (steps-add_step s r)
      ∙ append_assoc r.steps (enrich_step hash_string s ∷ []) (map (enrich_step hash_string) ss)

  pub pass-new_gate_result :
      (ss : List StepResult) (sc : Option GateScope)
      → (new_gate_result hash_string ss sc).pass ≡ none_failed ss
  unfolding new_gate_result
  pass-new_gate_result ss sc = pass-add_steps ss (empty_result sc)

  -- Of the summary of any steps: the four counts of steps add up to the steps given, the counts of
  -- blocking and of warning findings add up to the findings that the steps report, the steps are
  -- the given ones in order with their findings enriched, and the run passes just when its count of
  -- failed steps is 0, which is when none of the given steps has failed.
  pub new_gate_result-summary :
      (ss : List StepResult) (sc : Option GateScope)
      → let r = new_gate_result hash_string ss sc in
        (steps_counted r ≡ length ss)
        × (entries_counted r ≡ entries ss)
        × (r.steps ≡ map (enrich_step hash_string) ss)
        × (r.pass ≡ eqb r.steps_failed 0)
        × (r.pass ≡ none_failed ss)
  unfolding new_gate_result
  new_gate_result-summary ss sc = (
    omega (arith, counted-add_steps ss (empty_result sc)),
    omega (arith, entries-add_steps ss (empty_result sc)),
    steps-add_steps ss (empty_result sc),
    failed-add_steps ss (empty_result sc) refl,
    pass-add_steps ss (empty_result sc),
  )
