-- ===== src/Gate/Substantiveness/Severity.antt =====
-- The severity that a pack declares decides the verdict on its hollow tests.
use backstop_core.Prelude.{not, List, [], ◌∷◌, ◌≡◌, refl, arith, keep, is_empty, if◌then◌else◌, ap}
use backstop_core.Gate.Violation.{Violation, Status}
use backstop_core.Gate.Policy.{blocks_verdict, blocking_violations, step_verdict}
use backstop_core.Gate.Substantiveness.{hollow_findings_to_violations}

empty-blocking :
    (vs : List Violation)
    → is_empty (blocking_violations (hollow_findings_to_violations vs))
      ≡ is_empty (blocking_violations vs)
unfolding blocking_violations keep hollow_findings_to_violations blocks_verdict
empty-blocking [] = refl
empty-blocking (v ∷ vs) = ground (arith, empty-blocking vs)

-- The verdict on the converted hollow findings is the verdict on the findings of the pack: the
-- conversion turns no advisory into a blocker and no blocker into an advisory.
pub step_verdict-hollow_findings_to_violations :
    (vs : List Violation) → step_verdict (hollow_findings_to_violations vs) ≡ step_verdict vs
unfolding step_verdict hollow_findings_to_violations
step_verdict-hollow_findings_to_violations [] = refl
step_verdict-hollow_findings_to_violations (v ∷ vs) =
    ap (λ b. if not b then Status.fail else Status.warning) (empty-blocking (v ∷ vs))
