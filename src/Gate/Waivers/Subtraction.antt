-- ===== src/Gate/Waivers/Subtraction.antt =====
-- What the waiver pass takes out of a step, and what it leaves.
use Prim.Native.String.{String}
use backstop_core.Prelude.{
  In-map, All, ◌⊎◌, ℕ, Bool, true, false, not, List, [], ◌∷◌, map, some, ◌==◌, ◌≡◌, refl, ◌∙◌, sym,
  ap, subst, arith, is_empty, keep, keep-In, In-keep, In, member, inl, inr, Bool-cases, eq_iff,
}
use backstop_core.Waiver.Adjudicate.{Finding, LineReader, WaiverPolicy, adjudicate}
use backstop_core.Waiver.Adjudicate.Soundness.{Justified, Uniform, All-In, adjudicate-Justified}
use backstop_core.Gate.Violation.{Violation, Status, is_fail, StepResult}
use backstop_core.Gate.Policy.{blocks_verdict, blocking_violations, step_verdict}
use backstop_core.Gate.Waivers.{
  WaiverInputs, compute_waiver_result, collect_findings, waiver_line, finding_key, suppressed_keys,
  with_hint, is_suppressed, status_after, subtract_at, subtract_step,
}

map-In :
    {A B : Type 0} (f : A → B) (b : B) (xs : List A)
    → In b (map f xs)
    → (a : A) × In a xs × (f a ≡ b)
map-In f b [] i = absurd i
map-In f b (x ∷ xs) (inl q) = (x, inl refl, q)
map-In f b (x ∷ xs) (inr i) = let (a, found, e) = map-In f b xs i in (a, inr found, e)

-- A step whose findings include one that blocks is judged to fail.
step_verdict-fail :
    (v : Violation) (vs : List Violation)
    → In v vs
    → blocks_verdict v ≡ true
    → step_verdict vs ≡ Status.fail
unfolding step_verdict blocking_violations
step_verdict-fail v [] i b = absurd i
step_verdict-fail v (x ∷ xs) i b =
    rw (nonempty (keep blocks_verdict (x ∷ xs)) (keep-In blocks_verdict v (x ∷ xs) i b)) refl
  where
    nonempty : (ys : List Violation) → In v ys → is_empty ys ≡ false
    nonempty [] j = absurd j
    nonempty (y ∷ ys) j = refl

blocks-with_hint :
    (dimension : String) (policy : WaiverPolicy) (now : ℕ) (v : Violation)
    → blocks_verdict (with_hint dimension policy now v) ≡ blocks_verdict v
unfolding with_hint blocks_verdict
blocks-with_hint dimension policy now v = ground arith

status_after-fail :
    (s : StepResult) (v : Violation) (kept : List Violation)
    → s.status ≡ Status.fail
    → In v kept
    → blocks_verdict v ≡ true
    → status_after s kept ≡ Status.fail
unfolding status_after
status_after-fail s v [] e i b = absurd i
status_after-fail s v (x ∷ xs) e i b = ground (arith, step_verdict-fail v (x ∷ xs) i b)

status_after-not_fail :
    (s : StepResult) (kept : List Violation)
    → is_fail s.status ≡ false
    → status_after s kept ≡ s.status
unfolding status_after
status_after-not_fail s kept e = ground arith

module _ (sup : List String) (policy : WaiverPolicy) (now : ℕ) (s : StepResult)
    (line_of : Violation → ℕ) (located : waiver_line s ≡ some line_of) where
  abbrev stays : Violation → Bool
  stays v = not (is_suppressed sup line_of v)

  abbrev kept : List Violation
  kept = map (with_hint s.step_name policy now) (keep stays s.violations)

  subtract_step-located :
      subtract_step sup policy now s ≡ record s { violations = kept; status = status_after s kept }
  unfolding subtract_step
  subtract_step-located = ap (subtract_at sup policy now s) located

  -- In a step of the waivable surface that has failed, a blocking finding that is not suppressed
  -- keeps the step failed and is still reported, at most with a waiver hint on it.
  pub subtract_step-blocked :
      (v : Violation)
      → s.status ≡ Status.fail
      → In v s.violations
      → blocks_verdict v ≡ true
      → is_suppressed sup line_of v ≡ false
      → ((subtract_step sup policy now s).status ≡ Status.fail)
        × In (with_hint s.step_name policy now v) (subtract_step sup policy now s).violations
  subtract_step-blocked v e i b free =
      let hinted = with_hint s.step_name policy now in
      let inside =
        In-map hinted v (keep stays s.violations) (keep-In stays v s.violations i (ap not free)) in
      (
        ap (λ r. r.status) subtract_step-located
            ∙ status_after-fail s (hinted v) kept e inside
                (blocks-with_hint s.step_name policy now v ∙ b),
        subst (λ r. In (hinted v) r.violations) (sym subtract_step-located) inside,
      )

  -- What a step of the waivable surface still reports are findings that it reported before, none of
  -- them suppressed, at most with a waiver hint on them; and a step that has not failed keeps its
  -- status.
  pub subtract_step_sound :
      ((u : Violation)
        → In u (subtract_step sup policy now s).violations
        → (v : Violation) × In v s.violations
          × (with_hint s.step_name policy now v ≡ u)
          × (is_suppressed sup line_of v ≡ false))
      × (is_fail s.status ≡ false → (subtract_step sup policy now s).status ≡ s.status)
  subtract_step_sound = (
    λ u i.
        let (v, found, e) =
          map-In (with_hint s.step_name policy now) u (keep stays s.violations)
            (subst (λ r. In u r.violations) subtract_step-located i) in
        let (there, free) = In-keep stays v s.violations found in (v, there, e, ground arith),
    λ h. ap (λ r. r.status) subtract_step-located ∙ status_after-not_fail s kept h,
  )

member-suppressed_keys :
    (key : String) (fs : List Finding)
    → member key (suppressed_keys fs) ≡ true
    → (f : Finding) × In f fs × (finding_key f.file f.line f.rule_id ≡ key)
unfolding member suppressed_keys
member-suppressed_keys key [] h = absurd (cc)
member-suppressed_keys key (f ∷ fs) h =
    elim (Bool-cases (finding_key f.file f.line f.rule_id == key)) [
      | inl e ↦ (f, inl refl, (eq_iff (finding_key f.file f.line f.rule_id) key).0 e)
      | inr e ↦ let (g, i, q) = member-suppressed_keys key fs (ground arith) in (g, inr i, q)
    ]

-- Each finding of a step of the waivable surface comes out of the waiver pass, in a step of the same
-- name, at most with a waiver hint on it; or it has the key of one of the findings adjudicated
-- that is suppressed, which a waiver in its own window justifies. The findings adjudicated of each rule have one
-- severity, and the sources can be read.
pub removed-Justified :
    (quote : String → String) (inputs : WaiverInputs) (accumulated : List StepResult)
    (read : LineReader) (s : StepResult) (line_of : Violation → ℕ) (v : Violation)
    → inputs.read ≡ some read
    → Uniform (collect_findings accumulated)
    → In s accumulated
    → waiver_line s ≡ some line_of
    → In v s.violations
    → (after : StepResult) × In after (compute_waiver_result quote inputs accumulated).results
      × (after.step_name ≡ s.step_name)
      × (In (with_hint s.step_name inputs.policy inputs.now v) after.violations
          ⊎ ((f : Finding) × (finding_key f.file f.line f.rule_id
                ≡ finding_key v.file (line_of v) v.rule)
              × In f
                  (adjudicate
                    (collect_findings accumulated)
                    (some read)
                    inputs.policy
                    inputs.now).suppressed
              × Justified read inputs.policy inputs.now (collect_findings accumulated) f))
unfolding compute_waiver_result
removed-Justified quote inputs accumulated read s line_of v reads uniform i located k =
    let findings = collect_findings accumulated in
    let res = adjudicate findings inputs.read inputs.policy inputs.now in
    let sup = suppressed_keys res.suppressed in
    let at = subtract_step-located sup inputs.policy inputs.now s line_of located in
    let hinted = with_hint s.step_name inputs.policy inputs.now in
    (
      subtract_step sup inputs.policy inputs.now s,
      In-map (subtract_step sup inputs.policy inputs.now) s accumulated i,
      ap (λ (r : StepResult). r.step_name) at,
      elim (Bool-cases (is_suppressed sup line_of v)) [
        | inr free ↦ inl (
            subst (λ (r : StepResult). In (hinted v) r.violations) (sym at)
              (In-map hinted v (keep (λ u. not (is_suppressed sup line_of u)) s.violations)
                (keep-In (λ u. not (is_suppressed sup line_of u)) v s.violations k (ap not free))))
        | inl gone ↦
            let (f, j, e) =
              member-suppressed_keys (finding_key v.file (line_of v) v.rule) res.suppressed gone in
            inr (
              f,
              e,
              subst
                  (λ reader. In f (adjudicate findings reader inputs.policy inputs.now).suppressed)
                  reads j,
              All-In (Justified read inputs.policy inputs.now findings) res.suppressed
                  (subst
                    (λ reader.
                      All (Justified read inputs.policy inputs.now findings)
                        (adjudicate findings reader inputs.policy inputs.now).suppressed)
                    (sym reads)
                    (adjudicate-Justified read inputs.policy inputs.now findings uniform))
                  f j,
            )
      ],
    )
