-- ===== src/Gate/Policy.antt =====
-- pkg/gate/policy.go: which findings block, the verdict of a step, and the enforcement policy that
-- rewrites it for each dimension.
mod Dimension
pub mod Verdict
unfoldable pub use Dimension.*
pub mod Scoped
pub mod FailLoud
use backstop_core.Prelude.{
  String, Bool, true, false, not, ◌&&◌, ◌||◌, List, [], ◌∷◌, map, Option, none, some, ◌==◌,
  is_empty, keep, lookup, member, if◌then◌else◌,
}
use backstop_core.Text.{trim_space, equal_fold}
use backstop_core.Gate.Violation.{
  Violation, Status, StepResult, is_skipped, step_waiver_resolution, step_ledger_integrity,
  step_baseline_comparison,
}
use backstop_core.Gate.Scope.{GateScope}
use backstop_core.Gate.Identity.{enrich}
use backstop_core.Gate.Baseline.{
  BaselineArtifact, BaselineComparison, BaselineCompareOptions, compare_baseline,
}

-- `blocksVerdict`
unfoldable pub blocks_verdict : Violation → Bool
unfolding trim_space equal_fold
blocks_verdict v = not (equal_fold (trim_space v.severity) "warning")

-- `blockingViolations`
unfoldable pub blocking_violations : List Violation → List Violation
unfolding keep
blocking_violations vs = keep blocks_verdict vs

-- `StepVerdict`
unfoldable pub step_verdict : List Violation → Status
step_verdict vs =
    if is_empty vs
    then Status.pass
    else if not (is_empty (blocking_violations vs))
    then Status.fail
    else Status.warning

-- `policyMetaStep`
unfoldable pub policy_meta_step : String → Bool
policy_meta_step name =
    name == step_waiver_resolution
    || name == step_ledger_integrity
    || name == "pack_lock_verification"

-- An empty level defaults to block.
abbrev pub effective_level : String → String
effective_level l = if l == "" then policy_block else l

abbrev pub scope_options : Option GateScope → BaselineCompareOptions
scope_options sc = record { scope = sc; allow_rule_set_change_seeding = false; changed_files = [] }

abbrev pub is_some {ℓ} : {A : Type ℓ} → Option A → Bool
is_some none = false
is_some (some a) = true

-- The verdict on the findings that count, at a level that is not off.
unfoldable pub level_verdict : String → List Violation → Status
level_verdict level counted =
    let surfaced = if is_empty counted then Status.pass else Status.warning in
    if level == policy_warn
    then surfaced
    else if is_empty (blocking_violations counted)
    then surfaced
    else Status.fail

-- What `applyScopedPolicy` makes of one finding.
pub data Outcome : Type 0 where
  ignored warned blocked : Outcome

abbrev pub is_blocked : Outcome → Bool
is_blocked blocked = true
is_blocked _ = false

abbrev pub is_warned : Outcome → Bool
is_warned warned = true
is_warned _ = false

-- The tests of the loop body, in their order: the level is off, the finding counts, the level is
-- warn, and the severity blocks.
unfoldable pub outcome_of : Bool → Bool → Bool → Bool → Outcome
outcome_of off counts warn blocks =
    if off
    then ignored
    else if not counts
    then ignored
    else if warn || not blocks
    then warned
    else blocked

-- The policy that a finding falls under: its source's override, or the dimension's own.
unfoldable pub effective_policy : DimensionPolicy → Violation → DimensionPolicy
unfolding lookup_source
effective_policy p v = elim (lookup_source v.source_pack (sources_of p)) [ none ↦ p | some o ↦ o ]

module _ (hash_string : String → String) (baseline : Option BaselineArtifact)
    (scope : Option GateScope) where
  abbrev pub net_new_of : List Violation → BaselineComparison
  net_new_of vs = compare_baseline hash_string vs baseline (scope_options scope)

  unfoldable pub hashes : List Violation → List String
  hashes [] = []
  hashes (v ∷ vs) = (enrich hash_string v).identity_hash ∷ hashes vs

  -- Whether a finding counts under the policy that it falls under, given the hashes that are new.
  unfoldable pub counts_under : List String → DimensionPolicy → Violation → Bool
  unfolding member
  counts_under new_set eff v =
      if applies_to_of eff == applies_to_new_code && is_some baseline
      then member (enrich hash_string v).identity_hash new_set
      else true

  unfoldable pub scoped_outcome : List String → DimensionPolicy → Violation → Outcome
  unfolding effective_policy counts_under outcome_of
  scoped_outcome new_set p v =
      let eff = effective_policy p v in
      let level = effective_level (level_of eff) in
      outcome_of (level == policy_off) (counts_under new_set eff v) (level == policy_warn)
        (blocks_verdict v)

  -- The findings that the loop blocks on, and whether it warned at all.
  unfoldable pub scoped_blocking : List String → DimensionPolicy → List Violation → List Violation
  unfolding keep scoped_outcome
  scoped_blocking new_set p vs = keep (λ v. is_blocked (scoped_outcome new_set p v)) vs

  unfoldable pub scoped_warned : List String → DimensionPolicy → List Violation → List Violation
  unfolding keep scoped_outcome
  scoped_warned new_set p vs = keep (λ v. is_warned (scoped_outcome new_set p v)) vs

  -- `newSet`: empty without a baseline.
  unfoldable pub new_hashes : List Violation → List String
  unfolding hashes
  new_hashes vs = hashes (net_new_of vs).new_violations

  -- `applyScopedPolicy`
  unfoldable pub apply_scoped_policy : StepResult → DimensionPolicy → StepResult
  unfolding new_hashes scoped_blocking scoped_warned
  apply_scoped_policy s p =
      let new_set = new_hashes s.violations in
      let blocking = scoped_blocking new_set p s.violations in
      record s {
        fixed_violations =
            if is_some baseline
            then (net_new_of s.violations).fixed_violations
            else s.fixed_violations;
        new_violations = blocking;
        status =
            if not (is_empty blocking)
            then Status.fail
            else if not (is_empty (scoped_warned new_set p s.violations))
            then Status.warning
            else Status.pass;
      }

  -- The part of the loop body of `ApplyPolicy` that reads a policy entry.
  unfoldable pub apply_entry : DimensionPolicy → StepResult → StepResult
  unfolding apply_scoped_policy level_verdict
  apply_entry p s =
      let level = effective_level (level_of p) in
      let cmp = net_new_of s.violations in
      if level == policy_off
      then record s {
        status = Status.skipped;
        reason = "disabled by enforcement policy (level: off)";
        violations = [];
        new_violations = [];
      }
      else if has_sources (sources_of p)
      then apply_scoped_policy s p
      else if applies_to_of p == applies_to_new_code && is_some baseline
      then record s {
        new_violations = cmp.new_violations;
        fixed_violations = cmp.fixed_violations;
        status = level_verdict level cmp.new_violations;
      }
      else record s { status = level_verdict level s.violations }

  unfoldable pub apply_to_step : List (String × DimensionPolicy) → StepResult → StepResult
  unfolding apply_entry lookup policy_meta_step
  apply_to_step table s =
      if s.step_name == step_baseline_comparison
      then record s {
        status = Status.skipped;
        reason = "superseded by per-dimension enforcement policy";
        violations = [];
      }
      else elim (lookup s.step_name table) [
        | none ↦ s
        | some p ↦
            if policy_meta_step s.step_name || s.config_err || is_skipped s.status
            then s
            else apply_entry p s
      ]

  -- `ApplyPolicy`
  unfoldable pub apply_policy : List (String × DimensionPolicy) → List StepResult → List StepResult
  unfolding apply_to_step
  apply_policy table steps = if is_empty table then steps else map (apply_to_step table) steps
