-- ===== src/Tests/Policies.antt =====
-- The enforcement policy at concrete steps.
use backstop_core.Prelude.{inr, [], ◌∷◌, none, some, ◌≡◌, refl, ◌↔◌, inl, In}
use backstop_core.Gate.Violation.{Violation, Status}
use backstop_core.Gate.Policy.{
  DimensionPolicy, policy, no_sources, source, policy_block, policy_warn, applies_to_new_code,
  applies_to_all_code, step_verdict, apply_scoped_policy, apply_entry, apply_policy, counts_under,
}
use backstop_core.Gate.Policy.Verdict.{
  apply_entry-block, violations-apply_entry, apply_policy-exempt,
}
use backstop_core.Gate.Policy.Scoped.{Blocks, apply_scoped_policy-fail_iff}
use backstop_core.Gate.Policy.FailLoud.{strict, apply_entry-no_baseline}
use backstop_core.Tests.Samples.{hash, failed_step, broken_step, old_baseline}

-- Warn by default, and block for the findings of one pack.
abbrev split_policy : DimensionPolicy
split_policy =
    policy "warn" "new-code" (source "org/pack" (policy "block" "new-code" no_sources) no_sources)

-- The finding is in the baseline, so its pack's override does not block.
grandfathered_run :
    (apply_entry hash (some old_baseline) none split_policy failed_step).status ≡ Status.warning
unfolding apply_entry backstop_core.Gate.Baseline.compare_baseline
    backstop_core.Gate.Identity.enrich backstop_core.Text.trim_space
    backstop_core.FilePath.normalize_path backstop_core.Gate.Policy.blocks_verdict
grandfathered_run = refl

-- Without a baseline it does.
fail_loud_run : (apply_entry hash none none split_policy failed_step).status ≡ Status.fail
unfolding apply_entry backstop_core.Gate.Policy.blocks_verdict
fail_loud_run = refl

apply_entry-no_baseline_example :
    (apply_entry hash none none split_policy failed_step).status
    ≡ (apply_entry hash none none (strict split_policy) failed_step).status
apply_entry-no_baseline_example = apply_entry-no_baseline hash none split_policy failed_step

apply_scoped_policy-fail_iff_example :
    ((apply_scoped_policy hash none none failed_step split_policy).status ≡ Status.fail) ↔ (
      (v : Violation) × In v failed_step.violations
      × Blocks hash none none split_policy failed_step.violations v)
apply_scoped_policy-fail_iff_example =
    apply_scoped_policy-fail_iff hash none none failed_step split_policy

apply_entry-block_example :
    (apply_entry hash
      (some old_baseline)
      none
      (policy "" applies_to_all_code no_sources)
      failed_step).status
    ≡ step_verdict failed_step.violations
apply_entry-block_example =
    apply_entry-block hash (some old_baseline) none "" applies_to_all_code failed_step (inl refl)
      refl

violations-apply_entry_example :
    (apply_entry hash (some old_baseline) none split_policy failed_step).violations
    ≡ failed_step.violations
violations-apply_entry_example =
    violations-apply_entry hash (some old_baseline) none split_policy failed_step refl

apply_policy-exempt_example : In broken_step (
    apply_policy hash none none
      (("test_verification", split_policy) ∷ [])
      (failed_step ∷ broken_step ∷ []))
apply_policy-exempt_example =
    apply_policy-exempt hash none none (("test_verification", split_policy) ∷ [])
      (failed_step ∷ broken_step ∷ []) broken_step (inr (inl refl)) refl refl
