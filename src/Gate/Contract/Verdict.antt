-- ===== src/Gate/Contract/Verdict.antt =====
-- Which contracts the step accepts.
use backstop_core.Prelude.{
  String, Bool, not, ◌&&◌, List, [], ◌∷◌, Option, ◌≡◌, refl, arith, any, is_empty, keep,
  if◌then◌else◌,
}
use backstop_core.Text.{equal_fold}
use backstop_core.Gate.Violation.{Status}
use backstop_core.Gate.Scope.{GateScope}
use backstop_core.Gate.Policy.{step_verdict, blocking_violations, blocks_verdict}
use backstop_core.Gate.Contract.{
  ContractEngineResult, verify_contract_verdict, is_out_of_scope, contract_violations,
  contract_signature_step,
}

-- What a contract asks for: the symbol absent from a scope that was scanned, or its signature found.
abbrev pub is_satisfied : ContractEngineResult → Bool
is_satisfied r = if r.entry.absent then r.scanned && not r.matched else r.matched

module _ (quote : String → String) where
  abbrev pub is_broken : Option GateScope → ContractEngineResult → Bool
  is_broken scope r = not (is_out_of_scope quote scope r) && not (is_satisfied r)

  module _ (scope : Option GateScope) where
    empty-contract_violations :
        (rs : List ContractEngineResult)
        → is_empty (contract_violations quote scope rs) ≡ not (any (is_broken scope) rs)
    unfolding contract_violations verify_contract_verdict any
    empty-contract_violations [] = refl
    empty-contract_violations (r ∷ rs) = ground (arith, empty-contract_violations rs)

    blocking-contract_violations :
        (rs : List ContractEngineResult)
        → is_empty (blocking_violations (contract_violations quote scope rs))
          ≡ is_empty (contract_violations quote scope rs)
    unfolding contract_violations verify_contract_verdict blocking_violations blocks_verdict keep
        equal_fold
    blocking-contract_violations [] = refl
    blocking-contract_violations (r ∷ rs) = ground (arith, blocking-contract_violations rs)

  -- The step fails exactly when a result in the scope is not satisfied, and passes otherwise: a
  -- scope that was not scanned confirms no absence, and no result is reduced to a warning.
  pub status-contract_signature_step :
      (results : List ContractEngineResult) (scope : Option GateScope)
      → (contract_signature_step quote results scope).status
        ≡ (if any (is_broken scope) results then Status.fail else Status.pass)
  unfolding contract_signature_step step_verdict
  status-contract_signature_step results scope =
      ground
        (arith, empty-contract_violations scope results, blocking-contract_violations scope results)
