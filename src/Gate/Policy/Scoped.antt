-- ===== src/Gate/Policy/Scoped.antt =====
-- The verdict of a policy with overrides for some sources.
use backstop_core.Prelude.{
  String, Bool, true, false, ◌&&◌, List, [], ◌∷◌, Option, ◌==◌, ◌≡◌, refl, ◌↔◌, is_empty, member,
  keep, In, In-keep, keep-In, arith, inl, ◌∙◌, sym, if_true, if◌then◌else◌,
}
use backstop_core.Gate.Violation.{Violation, Status, StepResult}
use backstop_core.Gate.Scope.{GateScope}
use backstop_core.Gate.Identity.{enrich}
use backstop_core.Gate.Baseline.{BaselineArtifact}
use backstop_core.Gate.Policy.{
  DimensionPolicy, level_of, applies_to_of, policy_off, policy_warn, effective_level,
  effective_policy, applies_to_new_code, blocks_verdict, is_some, counts_under, scoped_outcome,
  outcome_of, scoped_blocking, new_hashes, is_blocked, apply_scoped_policy,
}

-- A list is not empty just when it has an item.
In-nonempty : {A : Type 0} (a : A) (xs : List A) → In a xs → is_empty xs ≡ false
In-nonempty a [] h = absurd h
In-nonempty a (x ∷ xs) h = refl

outcome_of-blocked :
    (off counts warn blocks : Bool)
    → is_blocked (outcome_of off counts warn blocks) ≡ true
    → (off ≡ false) × (counts ≡ true) × (warn ≡ false) × (blocks ≡ true)
unfolding outcome_of
outcome_of-blocked off counts warn blocks h = ground arith

blocked-outcome_of :
    {off counts warn blocks : Bool}
    → off ≡ false
    → counts ≡ true
    → warn ≡ false
    → blocks ≡ true
    → is_blocked (outcome_of off counts warn blocks) ≡ true
unfolding outcome_of
blocked-outcome_of p q r s = ground arith

guarded : (a b : Bool) → (a ≡ true → b ≡ true) → (if a then b else true) ≡ true
guarded true b h = h refl
guarded false b h = refl

nonempty_item : {A : Type 0} (xs : List A) → is_empty xs ≡ false → (a : A) × In a xs
nonempty_item [] h = absurd (cc)
nonempty_item (x ∷ xs) h = (x, inl refl)

module _ (hash_string : String → String) (baseline : Option BaselineArtifact)
    (scope : Option GateScope) where
  -- What makes a finding fail its step: the policy that it falls under, its source's override or
  -- the dimension's own, is neither off nor warn, the finding's severity is not `warning`, and the
  -- finding is net new if that policy grandfathers and there is a baseline.
  pub record Blocks (p : DimensionPolicy) (vs : List Violation) (v : Violation) : Type 0 where
    pub not_off : (effective_level (level_of (effective_policy p v)) == policy_off) ≡ false
    pub not_warn : (effective_level (level_of (effective_policy p v)) == policy_warn) ≡ false
    pub blocking : blocks_verdict v ≡ true
    pub counts :
        (applies_to_of (effective_policy p v) == applies_to_new_code && is_some baseline) ≡ true
        → member (enrich hash_string v).identity_hash (new_hashes hash_string baseline scope vs)
          ≡ true

  blocks_here : DimensionPolicy → List Violation → Violation → Bool
  blocks_here p vs v =
      is_blocked
        (scoped_outcome hash_string baseline scope (new_hashes hash_string baseline scope vs) p v)

  blocks_here-Blocks :
      (p : DimensionPolicy) (vs : List Violation) (v : Violation)
      → blocks_here p vs v ≡ true
      → Blocks p vs v
  unfolding blocks_here scoped_outcome counts_under
  blocks_here-Blocks p vs v h =
      let parts = outcome_of-blocked _ _ _ _ h in
      record {
        not_off = parts.0;
        not_warn = parts.2;
        blocking = parts.3;
        counts = λ e. sym (if_true _ true e) ∙ parts.1;
      }

  Blocks-blocks_here :
      (p : DimensionPolicy) (vs : List Violation) (v : Violation)
      → Blocks p vs v
      → blocks_here p vs v ≡ true
  unfolding blocks_here scoped_outcome counts_under
  Blocks-blocks_here p vs v b =
      blocked-outcome_of b.not_off (guarded _ _ b.counts) b.not_warn b.blocking

  status_fail :
      (s : StepResult) (p : DimensionPolicy)
      → ((apply_scoped_policy hash_string baseline scope s p).status ≡ Status.fail)
        ↔ (is_empty (keep (blocks_here p s.violations) s.violations) ≡ false)
  unfolding apply_scoped_policy blocks_here scoped_blocking
  status_fail s p = (λ h. ground arith, λ h. ground arith)

  -- With source overrides a step fails exactly when one of its findings blocks.
  pub apply_scoped_policy-fail_iff :
      (s : StepResult) (p : DimensionPolicy)
      → ((apply_scoped_policy hash_string baseline scope s p).status ≡ Status.fail)
        ↔ ((v : Violation) × In v s.violations × Blocks p s.violations v)
  apply_scoped_policy-fail_iff s p = (
    λ h.
        let (v, i) = nonempty_item _ ((status_fail s p).0 h) in
        let (found, blocks) = In-keep (blocks_here p s.violations) v s.violations i in
        (v, found, blocks_here-Blocks p s.violations v blocks),
    λ h.
        let (v, found, blocks) = h in
        (status_fail s p).1 (
          In-nonempty v _ (
            keep-In (blocks_here p s.violations) v s.violations found
              (Blocks-blocks_here p s.violations v blocks))),
  )
