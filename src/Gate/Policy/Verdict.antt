-- ===== src/Gate/Policy/Verdict.antt =====
-- The verdicts of the dimension-wide policy, and what no policy changes.
use backstop_core.Prelude.{
  In, In-map, map, subst, String, true, false, ◌&&◌, ◌||◌, List, [], ◌∷◌, Option, ◌==◌, ◌≡◌, refl,
  ◌≢◌, ◌⊎◌, lookup, arith, Bool-cases, Option-cases, if_true, if_false, or_right, ◌∙◌, inl, inr,
}
use backstop_core.Gate.Violation.{
  Violation, Status, StepResult, is_skipped, step_baseline_comparison,
}
use backstop_core.Gate.Scope.{GateScope}
use backstop_core.Gate.Baseline.{BaselineArtifact}
use backstop_core.Gate.Policy.{
  DimensionPolicy, policy, level_of, no_sources, policy_off, policy_warn, policy_block,
  effective_level, applies_to_new_code, blocking_violations, step_verdict, is_some, level_verdict,
  apply_scoped_policy, apply_entry, apply_to_step, apply_policy, policy_meta_step,
}

-- At a level that is not warn the policy reaches the verdict that the step reached by itself.
level_verdict-block :
    (level : String) (vs : List Violation)
    → (level == policy_warn) ≡ false
    → level_verdict level vs ≡ step_verdict vs
unfolding level_verdict step_verdict blocking_violations
level_verdict-block level [] h = ground arith
level_verdict-block level (v ∷ vs) h = ground arith

level_verdict-warn : (vs : List Violation) → level_verdict policy_warn vs ≢ Status.fail
unfolding level_verdict
level_verdict-warn vs = ground arith

module _ (hash_string : String → String) (baseline : Option BaselineArtifact)
    (scope : Option GateScope) where
  -- A policy entry with the level block, given or by default, that counts every finding and has no
  -- source overrides gives the step the verdict of `StepVerdict` on the findings that it reports.
  pub apply_entry-block :
      (level applies : String) (s : StepResult)
      → (level ≡ "") ⊎ (level ≡ policy_block)
      → (applies == applies_to_new_code) ≡ false
      → (apply_entry hash_string baseline scope (policy level applies no_sources) s).status
        ≡ step_verdict s.violations
  unfolding apply_entry
  apply_entry-block level applies s (inl e) k =
      rw (e, k) (level_verdict-block policy_block s.violations refl)
  apply_entry-block level applies s (inr e) k =
      rw (e, k) (level_verdict-block policy_block s.violations refl)

  -- An entry with the level warn and no source overrides never fails the step.
  pub apply_entry-warn :
      (applies : String) (s : StepResult)
      → (apply_entry hash_string baseline scope (policy policy_warn applies no_sources) s).status
        ≢ Status.fail
  unfolding apply_entry
  apply_entry-warn applies s =
      elim (Bool-cases (applies == applies_to_new_code && is_some baseline)) [
        | inl e ↦ rw e (level_verdict-warn _)
        | inr e ↦ rw e (level_verdict-warn _)
      ]

  -- Unless its level is off an entry leaves the reported findings of the step as they are.
  pub violations-apply_entry :
      (p : DimensionPolicy) (s : StepResult)
      → (effective_level (level_of p) == policy_off) ≡ false
      → (apply_entry hash_string baseline scope p s).violations ≡ s.violations
  unfolding apply_entry apply_scoped_policy
  violations-apply_entry p s h = ground arith

  apply_to_step-exempt :
      (table : List (String × DimensionPolicy)) (s : StepResult)
      → (s.step_name == step_baseline_comparison) ≡ false
      → (policy_meta_step s.step_name || s.config_err || is_skipped s.status) ≡ true
      → apply_to_step hash_string baseline scope table s ≡ s
  unfolding apply_to_step
  apply_to_step-exempt table s h k = elim (Option-cases (lookup s.step_name table)) [
    | inl e ↦ if_false _ _ h ∙ rw e refl
    | inr (p, e) ↦ if_false _ _ h ∙ rw e (if_true _ _ k)
  ]

  -- Whatever the table says, a step that signals a configuration error or was skipped is among the
  -- results as it was, unless it is the comparison with the baseline.
  pub apply_policy-exempt :
      (table : List (String × DimensionPolicy)) (steps : List StepResult) (s : StepResult)
      → In s steps
      → (s.step_name == step_baseline_comparison) ≡ false
      → (s.config_err || is_skipped s.status) ≡ true
      → In s (apply_policy hash_string baseline scope table steps)
  unfolding apply_policy
  apply_policy-exempt [] steps s i h k = i
  apply_policy-exempt (e ∷ table) steps s i h k =
      let rewrite = apply_to_step hash_string baseline scope (e ∷ table) in
      subst (λ r. In r (map rewrite steps))
        (apply_to_step-exempt (e ∷ table) s h
          (or_right (policy_meta_step s.step_name) s.config_err (is_skipped s.status) k))
        (In-map rewrite s steps i)
