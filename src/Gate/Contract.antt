-- ===== src/Gate/Contract.antt =====
-- pkg/gate/contract_verdict.go and pkg/gate/step_contract.go: the verdict on the probes that a pack
-- ran for the declared contracts. `quote` stands for the format verb `%q`.
pub mod Verdict
use Prim.Native.String.{String}
use backstop_core.Prelude.{
  ℕ, Bool, true, false, not, ◌&&◌, List, [], ◌∷◌, Option, none, some, ltb, ◌==◌, if◌then◌else◌,
}
use backstop_core.Text.Numbers.{concat, itoa}
use backstop_core.FilePath.{normalize_path}
use backstop_core.Gate.Violation.{
  Violation, new_violation, Status, StepResult, new_step_result, step_contract_signature,
}
use backstop_core.Gate.Scope.{GateScope, is_all, scope_contains}
use backstop_core.Gate.Policy.{step_verdict}

pub record SarifLocation : Type 0 where
  pub file : String
  pub line : ℕ

-- `ContractEntry`, without `Kind`, which the verdict does not read.
pub record ContractEntry : Type 0 where
  pub file : String
  pub name : String
  pub signature : String
  pub scope : String
  pub absent : Bool

pub record ContractEngineResult : Type 0 where
  pub entry : ContractEntry
  pub matched : Bool
  pub scanned : Bool
  pub locations : List SarifLocation

-- `contractScope`
unfoldable pub contract_scope : ContractEntry → String
contract_scope e = if not (e.scope == "") then e.scope else e.file

-- `locationFile`
unfoldable pub location_file : List SarifLocation → String → String
location_file [] fallback = fallback
location_file (l ∷ ls) fallback = if not (l.file == "") then l.file else fallback

-- `locationSuffix`
unfoldable pub location_suffix : List SarifLocation → String
unfolding concat itoa
location_suffix [] = ""
location_suffix (l ∷ ls) =
    if ltb 0 l.line
    then concat (" in " ∷ l.file ∷ ":" ∷ itoa l.line ∷ [])
    else concat (" in " ∷ l.file ∷ [])

module _ (quote : String → String) where
  abbrev unscanned : ContractEntry → Violation
  unscanned e =
      new_violation step_contract_signature (normalize_path "" e.file)
        (concat (
          "absence assertion for symbol "
          ∷ e.name
          ∷ ": declared scope "
          ∷ contract_scope e
          ∷ " was not scanned (missing or unscanned) — cannot confirm absence, refusing to pass silently"
          ∷ []))
        "error"

  abbrev forbidden : ContractEngineResult → Violation
  forbidden r =
      new_violation step_contract_signature
        (normalize_path "" (location_file r.locations r.entry.file))
        (concat (
          "symbol "
          ∷ r.entry.name
          ∷ " expected absent but present"
          ∷ location_suffix r.locations
          ∷ " (forbidden symbol regression)"
          ∷ []))
        "error"

  abbrev mismatched : ContractEntry → Violation
  mismatched e =
      new_violation step_contract_signature (normalize_path "" e.file)
        (concat (
          "symbol "
          ∷ e.name
          ∷ " signature not found or mismatched in "
          ∷ normalize_path "" e.file
          ∷ ": expected "
          ∷ quote e.signature
          ∷ []))
        "error"

  -- `VerifyContractVerdict`
  unfoldable pub verify_contract_verdict : ContractEngineResult → Option Violation
  unfolding contract_scope location_file location_suffix concat
  verify_contract_verdict r =
      if r.entry.absent
      then (if not r.scanned
          then some (unscanned r.entry)
          else if r.matched
          then some (forbidden r)
          else none)
      else if r.matched
      then none
      else some (mismatched r.entry)

  -- The guard of the loop: a result that the scope leaves out.
  unfoldable pub is_out_of_scope : Option GateScope → ContractEngineResult → Bool
  unfolding scope_contains
  is_out_of_scope none r = false
  is_out_of_scope (some s) r =
      not (is_all s.mode) && not (r.entry.file == "") && not (scope_contains (some s) r.entry.file)

  abbrev pub add_verdict : Option Violation → List Violation → List Violation
  add_verdict none vs = vs
  add_verdict (some v) vs = v ∷ vs

  unfoldable pub contract_violations : Option GateScope → List ContractEngineResult → List Violation
  unfolding verify_contract_verdict is_out_of_scope
  contract_violations scope [] = []
  contract_violations scope (r ∷ rs) =
      let rest = contract_violations scope rs in
      if is_out_of_scope scope r then rest else add_verdict (verify_contract_verdict r) rest

  -- The step of `StepContractSignatureScopedFunc`.
  unfoldable pub contract_signature_step : List ContractEngineResult → Option GateScope → StepResult
  unfolding contract_violations
  contract_signature_step results scope =
      let vs = contract_violations scope results in
      new_step_result step_contract_signature (step_verdict vs) vs ""
