-- ===== src/Tests/Runs.antt =====
-- Runs of the gate at concrete steps.
use backstop_core.Prelude.{true, false, [], ◌∷◌, none, ◌≡◌, refl, if◌then◌else◌, eqb, map}
use backstop_core.Gate.Result.{new_gate_result, enrich_step}
use backstop_core.Gate.Result.Tally.{
  new_gate_result-summary, steps_counted, entries_counted, none_failed,
}
use backstop_core.Gate.Run.{Progress, run_step, run_steps, start, run, exit_code}
use backstop_core.Gate.Run.Halting.{stops, signals, run_steps-halted}
use backstop_core.Gate.Run.ExitCodes.{exit_code-run, judged_steps, has_signal}
use backstop_core.Tests.Samples.{
  hash, quote, elapsed, failed_step, passed_step, broken_step, returns, gate_of,
}

-- A step that fails makes the gate exit with 1, after both steps have run.
failing_run :
    (run hash quote elapsed (gate_of (returns failed_step ∷ returns passed_step ∷ [])) 0).1 ≡ 1
unfolding run backstop_core.Gate.Policy.apply_policy
failing_run = refl

-- A configuration error makes it exit with 2, and the step behind it does not run.
broken_run :
    (run hash quote elapsed (gate_of (returns broken_step ∷ returns failed_step ∷ [])) 0).2 ≡ 1
unfolding run
broken_run = refl

exit_code-run_example :
    (run hash quote elapsed (gate_of (returns failed_step ∷ returns passed_step ∷ [])) 0).1 ≡ (
      if has_signal hash quote elapsed (gate_of (returns failed_step ∷ returns passed_step ∷ [])) 0
      then 2
      else if none_failed (
          judged_steps hash quote elapsed
            (gate_of (returns failed_step ∷ returns passed_step ∷ []))
            0)
      then 0
      else 1)
exit_code-run_example =
    exit_code-run hash quote elapsed (gate_of (returns failed_step ∷ returns passed_step ∷ [])) 0

-- A step that fails without a configuration error does not stop the run, one with it does.
failed_goes_on :
    stops hash quote elapsed
      (gate_of [])
      (returns failed_step ∷ returns passed_step ∷ [])
      (start hash quote elapsed 0)
    ≡ false
unfolding backstop_core.Gate.Run.swap_waivers backstop_core.Gate.Run.swap_baseline
failed_goes_on = refl

broken_signals :
    signals hash quote elapsed (gate_of []) (returns broken_step) (
      run_steps hash quote elapsed
        (gate_of [])
        (returns failed_step ∷ returns passed_step ∷ [])
        (start hash quote elapsed 0))
    ≡ true
unfolding backstop_core.Gate.Run.swap_waivers backstop_core.Gate.Run.swap_baseline
broken_signals = refl

run_steps-halted_example :
    run_steps hash quote elapsed
      (gate_of [])
      (returns failed_step ∷ returns passed_step ∷ returns broken_step ∷ returns failed_step ∷ [])
      (start hash quote elapsed 0)
    ≡ run_step hash quote elapsed (gate_of []) (returns broken_step) (
        run_steps hash quote elapsed
          (gate_of [])
          (returns failed_step ∷ returns passed_step ∷ [])
          (start hash quote elapsed 0))
run_steps-halted_example =
    run_steps-halted hash quote elapsed (gate_of [])
      (returns failed_step ∷ returns passed_step ∷ []) (returns broken_step)
      (returns failed_step ∷ []) (start hash quote elapsed 0) failed_goes_on broken_signals

new_gate_result-summary_example :
    let r = new_gate_result hash (failed_step ∷ passed_step ∷ []) none in
    (steps_counted r ≡ 2)
    × (entries_counted r ≡ 2)
    × (r.steps ≡ map (enrich_step hash) (failed_step ∷ passed_step ∷ []))
    × (r.pass ≡ eqb r.steps_failed 0)
    × (r.pass ≡ false)
new_gate_result-summary_example = new_gate_result-summary hash (failed_step ∷ passed_step ∷ []) none
