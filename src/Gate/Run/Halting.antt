-- ===== src/Gate/Run/Halting.antt =====
-- What happens when a step signals a configuration error.
use Prim.Native.String.{String}
use backstop_core.Prelude.{
  ℕ, Bool, ◌||◌, arith, true, false, List, [], ◌∷◌, ◌++◌, ◌≡◌, refl, Bool-cases, inl, inr, if_true,
  if_false, ◌∙◌, sym, ap,
}
use backstop_core.Gate.Run.{
  Gate, StepFunc, Progress, swap_waivers, swap_baseline, run_step, run_steps,
}

or_left_false : (a b : Bool) → (a || b) ≡ false → a ≡ false
or_left_false a b h = ground arith

or_right_false : (a b : Bool) → (a || b) ≡ false → b ≡ false
or_right_false a b h = ground arith

or_true : {a : Bool} (b : Bool) → a ≡ true → (a || b) ≡ true
or_true b h = rw h

module _ {W : Type 0} (hash_string quote : String → String) (elapsed : W → W → ℕ) where
  -- Whether the result that a step contributes signals a configuration error. It is that of the
  -- step itself, or of the pass that is swapped in for it.
  abbrev pub signals : Gate W → StepFunc W → Progress W → Bool
  signals g step p =
      let swapped =
        swap_waivers hash_string quote elapsed g (step p.world).0 p.results p.active_waivers in
      (swap_baseline hash_string quote elapsed g swapped.step swapped.results).config_err

  -- Whether one of the steps does, the steps before it having run.
  abbrev pub stops : Gate W → List (StepFunc W) → Progress W → Bool
  stops g [] p = false
  stops g (step ∷ rest) p =
      signals g step p || stops g rest (run_step hash_string quote elapsed g step p)

  halted-run_step :
      (g : Gate W) (step : StepFunc W) (p : Progress W)
      → (run_step hash_string quote elapsed g step p).halted ≡ signals g step p
  unfolding run_step
  halted-run_step g step p = refl

  -- Steps of which none signals a configuration error all run, and so does the first one that does;
  -- the steps behind it change nothing: not the results, not the active waivers and not the world.
  pub run_steps-halted :
      (g : Gate W) (before : List (StepFunc W)) (step : StepFunc W) (after : List (StepFunc W))
      (p : Progress W)
      → stops g before p ≡ false
      → signals g step (run_steps hash_string quote elapsed g before p) ≡ true
      → run_steps hash_string quote elapsed g (before ++ step ∷ after) p
        ≡ run_step hash_string quote elapsed g step (run_steps hash_string quote elapsed g before p)
  unfolding run_steps
  run_steps-halted g [] step after p h k = if_true _ _ (halted-run_step g step p ∙ k)
  run_steps-halted g (s ∷ before) step after p h k =
      let q = run_step hash_string quote elapsed g s p in
      let front = run_steps hash_string quote elapsed g before q in
      let go = halted-run_step g s p ∙ or_left_false (signals g s p) (stops g before q) h in
      let same = if_false q front go in
      if_false q (run_steps hash_string quote elapsed g (before ++ step ∷ after) q) go
      ∙ run_steps-halted g before step after q (or_right_false (signals g s p) (stops g before q) h)
          (ap (signals g step) (sym same) ∙ k)
      ∙ ap (run_step hash_string quote elapsed g step) (sym same)

  pub halted-run_steps :
      (g : Gate W) (ss : List (StepFunc W)) (p : Progress W)
      → p.halted ≡ false
      → (run_steps hash_string quote elapsed g ss p).halted ≡ stops g ss p
  unfolding run_steps
  halted-run_steps g [] p h = h
  halted-run_steps g (s ∷ ss) p h =
      let q = run_step hash_string quote elapsed g s p in
      let later = run_steps hash_string quote elapsed g ss q in
      elim (Bool-cases (signals g s p)) [
        | inl e ↦
            let e' = halted-run_step g s p ∙ e in
            ap (λ r. r.halted) (if_true q later e') ∙ e' ∙ sym (or_true (stops g ss q) e)
        | inr e ↦
            let e' = halted-run_step g s p ∙ e in
            ap (λ r. r.halted) (if_false q later e')
            ∙ halted-run_steps g ss q e'
            ∙ sym (ap (λ b. b || stops g ss q) e)
      ]
