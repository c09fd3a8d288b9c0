-- ===== src/Gate/Waivers/Structural.antt =====
-- The steps that take no part in the waiver pass.
use Prim.Native.String.{String}
use backstop_core.Prelude.{
  length, length-map, ◌++◌, ◌≢◌, none, false, List, [], ◌∷◌, map, some, ◌==◌, ◌≡◌, refl, ◌∙◌, ap,
  arith, inl, inr, Bool-cases, eq_iff,
}
use backstop_core.Waiver.Adjudicate.{adjudicate}
use backstop_core.Gate.Violation.{StepResult}
use backstop_core.Gate.Waivers.{
  WaiverInputs, compute_waiver_result, collect_findings, finding_of, waiver_line, suppressed_keys,
  waivable_dimension, subtract_at, subtract_step,
}

-- A step with another name than those of the waivable surface.
abbrev pub Structural : StepResult → Type 0
Structural s =
    (s.step_name ≢ "pack_engines")
    × (s.step_name ≢ "test_substantiveness")
    × (s.step_name ≢ "coverage_threshold")

waiver_line-Structural : (s : StepResult) → Structural s → waiver_line s ≡ none
unfolding waiver_line waivable_dimension
waiver_line-Structural s (a, b, c) = ground (
  arith,
  not_equal s.step_name "pack_engines" a,
  not_equal s.step_name "test_substantiveness" b,
  not_equal s.step_name "coverage_threshold" c,
)
  where
    not_equal : (x y : String) → x ≢ y → (x == y) ≡ false
    not_equal x y h = elim (Bool-cases (x == y)) [
      | inl e ↦ absurd (h ((eq_iff x y).0 e))
      | inr e ↦ e
    ]

collect_findings-Structural :
    (front back : List StepResult) (s : StepResult)
    → waiver_line s ≡ none
    → collect_findings (front ++ s ∷ back) ≡ collect_findings (front ++ back)
unfolding collect_findings
collect_findings-Structural [] back s h = rw (h, collect_findings) refl
collect_findings-Structural (t ∷ front) back s h =
    ap
      (λ rest. elim (waiver_line t) [
        | none ↦ rest
        | some line_of ↦ map (finding_of line_of) t.violations ++ rest
      ])
      (collect_findings-Structural front back s h)

map-append : {A B : Type 0} (f : A → B) (xs ys : List A) → map f (xs ++ ys) ≡ map f xs ++ map f ys
map-append f [] ys = refl
map-append f (x ∷ xs) ys = ap (λ zs. f x ∷ zs) (map-append f xs ys)

-- A step outside the waivable surface, by its name, does not take part in the waiver pass: it comes
-- out as it went in, at its place, and the pass makes of the other steps, of the waivers and of its
-- own result what it makes of them without that step.
pub compute_waiver_result-In :
    (quote : String → String) (inputs : WaiverInputs) (front back : List StepResult)
    (s : StepResult)
    → Structural s
    → let whole = compute_waiver_result quote inputs (front ++ s ∷ back) in
      let others = compute_waiver_result quote inputs (front ++ back) in
      (fs : List StepResult) × (bs : List StepResult) × (length fs ≡ length front)
      × (others.results ≡ fs ++ bs)
      × (whole.results ≡ fs ++ s ∷ bs)
      × (whole.active_waivers ≡ others.active_waivers)
      × (whole.step ≡ others.step)
unfolding compute_waiver_result subtract_step
compute_waiver_result-In quote inputs front back s outside =
    let h = waiver_line-Structural s outside in
    let same = collect_findings-Structural front back s h in
    let found =
      adjudicate (collect_findings (front ++ back)) inputs.read inputs.policy inputs.now in
    let pass = subtract_step (suppressed_keys found.suppressed) inputs.policy inputs.now in
    let stays = ap (subtract_at (suppressed_keys found.suppressed) inputs.policy inputs.now s) h in
    (
      map pass front,
      map pass back,
      length-map pass front,
      map-append pass front back,
      rw same
          (map-append pass front (s ∷ back) ∙ ap (λ x. map pass front ++ x ∷ map pass back) stays),
      rw same refl,
      rw same refl,
    )
