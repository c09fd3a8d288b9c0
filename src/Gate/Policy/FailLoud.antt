-- ===== src/Gate/Policy/FailLoud.antt =====
-- Without a baseline nothing is grandfathered.
use backstop_core.Prelude.{
  String, not, List, Option, none, some, ◌≡◌, refl, arith, ap, keep, if◌then◌else◌, is_empty,
}
use mathlib.Core.Path.{fun_ext}
use backstop_core.Gate.Violation.{Violation, Status, StepResult}
use backstop_core.Gate.Scope.{GateScope}
use backstop_core.Gate.Policy.{
  DimensionPolicy, Sources, policy, no_sources, source, level_of, effective_policy,
  applies_to_all_code, lookup_source, counts_under, scoped_outcome, has_sources, Outcome,
  is_blocked, is_warned, scoped_blocking, scoped_warned, new_hashes, apply_scoped_policy,
  apply_entry,
}

-- The policy with every `applies-to` set to all code, its overrides' too.
abbrev mutual
  pub strict : DimensionPolicy → DimensionPolicy
  strict (policy l a srcs) = policy l applies_to_all_code (strict_sources srcs)

  pub strict_sources : Sources → Sources
  strict_sources no_sources = no_sources
  strict_sources (source k p rest) = source k (strict p) (strict_sources rest)

level_of-strict : (p : DimensionPolicy) → level_of (strict p) ≡ level_of p
level_of-strict (policy l a srcs) = refl

has_sources-strict : (srcs : Sources) → has_sources (strict_sources srcs) ≡ has_sources srcs
has_sources-strict no_sources = refl
has_sources-strict (source k p rest) = refl

abbrev override_or : DimensionPolicy → Option DimensionPolicy → DimensionPolicy
override_or p none = p
override_or p (some o) = o

level_of-effective_policy :
    (p : DimensionPolicy) (k : String) (srcs : Sources)
    → level_of (override_or (strict p) (lookup_source k (strict_sources srcs)))
      ≡ level_of (override_or p (lookup_source k srcs))
unfolding lookup_source
level_of-effective_policy p k no_sources = level_of-strict p
level_of-effective_policy p k (source j o rest) =
    ground (arith, level_of-effective_policy p k rest, level_of-strict o)

module _ (hash_string : String → String) (scope : Option GateScope) where
  outcome-strict :
      (hashes : List String) (p : DimensionPolicy) (v : Violation)
      → scoped_outcome hash_string none scope hashes (strict p) v
        ≡ scoped_outcome hash_string none scope hashes p v
  unfolding scoped_outcome counts_under effective_policy
  outcome-strict hashes (policy l a srcs) v =
      ground (arith, level_of-effective_policy (policy l a srcs) v.source_pack srcs)

  scoped_status-strict :
      (s : StepResult) (p : DimensionPolicy)
      → (apply_scoped_policy hash_string none scope s (strict p)).status
        ≡ (apply_scoped_policy hash_string none scope s p).status
  unfolding apply_scoped_policy scoped_blocking scoped_warned
  scoped_status-strict s p =
      let new_set = new_hashes hash_string none scope s.violations in
      let same = fun_ext (outcome-strict new_set p) in
      ap
        (λ (o : Violation → Outcome).
          if not (is_empty (keep (λ v. is_blocked (o v)) s.violations))
          then Status.fail
          else if not (is_empty (keep (λ v. is_warned (o v)) s.violations))
          then Status.warning
          else Status.pass)
        same

  -- Without a baseline a policy reaches the verdict that it reaches when each of its entries, the
  -- overrides of its sources too, counts all code: a missing baseline grandfathers nothing.
  pub apply_entry-no_baseline :
      (p : DimensionPolicy) (s : StepResult)
      → (apply_entry hash_string none scope p s).status
        ≡ (apply_entry hash_string none scope (strict p) s).status
  unfolding apply_entry
  apply_entry-no_baseline (policy l a srcs) s =
      ground (arith, scoped_status-strict s (policy l a srcs), has_sources-strict srcs)
