-- ===== src/Tests/Baselines.antt =====
-- Comparisons with a baseline at concrete findings.
use backstop_core.Prelude.{true, false, [], ◌∷◌, none, some, ◌≡◌, refl, ◌⊎◌, inl, inr, In}
use backstop_core.Gate.Violation.{Violation}
use backstop_core.Gate.Scope.{filter_violations, scope_contains}
use backstop_core.Gate.Identity.{enrich}
use backstop_core.Gate.Baseline.{compare_baseline, scope_touches, no_comparison}
use backstop_core.Gate.Baseline.Index.{Known}
use backstop_core.Gate.Baseline.Ratchet.{
  compare_baseline_complete, compare_baseline_sound, compare_baseline-touched,
}
use backstop_core.Gate.Baseline.SelfCompare.{compare_baseline_self}
use backstop_core.Tests.Samples.{hash, bad_call, notice, diff_scope, options_for, old_baseline}

in_diff : scope_contains (some diff_scope) "pkg/a.go" ≡ true
unfolding scope_contains backstop_core.FilePath.normalize_path backstop_core.Text.trim_space
in_diff = refl

compare_baseline-touched_example :
    In
      (enrich hash bad_call)
      (compare_baseline hash
        (bad_call ∷ [])
        (some old_baseline)
        (options_for (some diff_scope))).new_violations
compare_baseline-touched_example =
    compare_baseline-touched hash (options_for (some diff_scope)) old_baseline (bad_call ∷ [])
      diff_scope bad_call refl refl (inl refl) refl in_diff

notice-In : In notice (filter_violations none (bad_call ∷ notice ∷ []))
unfolding filter_violations
notice-In = inr (inl refl)

compare_baseline_complete_example :
    let c = compare_baseline hash (bad_call ∷ notice ∷ []) (some old_baseline) (options_for none) in
    In (enrich hash notice) c.new_violations
    ⊎ (In (enrich hash notice) c.seeded_violations
        ⊎ (Known hash (enrich hash notice).identity_hash old_baseline.violations
            × (scope_touches none notice.file ≡ false)))
compare_baseline_complete_example =
    compare_baseline_complete hash (options_for none) old_baseline (bad_call ∷ notice ∷ []) notice
      notice-In

notice_new :
    In
      (enrich hash notice)
      (compare_baseline hash
        (bad_call ∷ notice ∷ [])
        (some old_baseline)
        (options_for none)).new_violations
unfolding compare_baseline enrich backstop_core.Text.trim_space
    backstop_core.FilePath.normalize_path
notice_new = inl refl

compare_baseline_sound_example :
    (v : Violation) × In v (filter_violations none (bad_call ∷ notice ∷ []))
    × (enrich hash v ≡ enrich hash notice)
    × (Known hash (enrich hash v).identity_hash old_baseline.violations
        → scope_touches none v.file ≡ true)
compare_baseline_sound_example =
    compare_baseline_sound hash (options_for none) old_baseline (bad_call ∷ notice ∷ [])
      (enrich hash notice) notice_new

compare_baseline_self_example :
    compare_baseline hash
      (bad_call ∷ notice ∷ [])
      (some (record { violations = bad_call ∷ notice ∷ [] }))
      (options_for none)
    ≡ no_comparison hash
compare_baseline_self_example =
    compare_baseline_self hash (options_for none) (bad_call ∷ notice ∷ []) refl
