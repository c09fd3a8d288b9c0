-- ===== src/Gate/Waivers.antt =====
-- pkg/gate/step_waiver.go: the waiver reconciliation pass, which takes the suppressed findings out
-- of the results so far and reports the tokens that are wrong. `quote` stands for the verb %q.
mod Report
pub mod Subtraction
pub mod Structural
unfoldable pub use Report.*
use Prim.Native.String.{String}
use backstop_core.Prelude.{
  ℕ, ◌+◌, Bool, true, false, not, ◌&&◌, ◌||◌, List, [], ◌∷◌, ◌++◌, map, Option, none, some, ◌==◌,
  ltb, length, is_empty, keep, member, if◌then◌else◌,
}
use backstop_core.Text.Numbers.{concat, itoa}
use backstop_core.Text.Split.{join}
use backstop_core.Waiver.Calendar.{format_date}
use backstop_core.Waiver.Token.{
  Waiver, ParseError, no_token, malformed_structure, missing_rule_id, unknown_reason,
  missing_expiry, invalid_expiry, waiver_marker, accepted_risk, reason_text, default_duration,
}
use backstop_core.Waiver.Adjudicate.{
  Finding, Diagnostic, Kind, malformed, non_waivable, unbound, LineReader, WaiverPolicy, Result,
  adjudicate,
}
use backstop_core.Waiver.Unbound.{unbound_tokens}
use backstop_core.Gate.Violation.{
  Violation, new_violation, Status, is_fail, StepResult, new_step_result, step_pack_engines,
  step_test_substantiveness, step_coverage_threshold, step_waiver_resolution,
}
use backstop_core.Gate.Policy.{step_verdict}

abbrev pub coverage_annotation_line : ℕ
coverage_annotation_line = 1

-- `waivableDimension`
unfoldable pub waivable_dimension : String → Bool
waivable_dimension step = step == step_pack_engines || step == step_test_substantiveness

-- The line under which a step's findings are adjudicated; `none` for a structural dimension.
unfoldable pub waiver_line : StepResult → Option (Violation → ℕ)
unfolding waivable_dimension
waiver_line s =
    if waivable_dimension s.step_name
    then some (λ v. v.line)
    else if s.step_name == step_coverage_threshold
    then some (λ v. coverage_annotation_line)
    else none

unfoldable pub finding_of : (Violation → ℕ) → Violation → Finding
finding_of line_of v = record {
  rule_id = v.rule;
  file = v.file;
  line = line_of v;
  severity = v.severity;
}

-- The first loop: the findings of the waivable surface.
unfoldable pub collect_findings : List StepResult → List Finding
unfolding waiver_line finding_of
collect_findings [] = []
collect_findings (s ∷ ss) =
    let rest = collect_findings ss in
    elim (waiver_line s) [
      | none ↦ rest
      | some line_of ↦ map (finding_of line_of) s.violations ++ rest
    ]

-- `findingKey`; the source's separator is the NUL character.
unfoldable pub finding_key : String → ℕ → String → String
unfolding concat itoa
finding_key file line rule = concat (file ∷ "\0" ∷ itoa line ∷ "\0" ∷ rule ∷ [])

unfoldable pub suppressed_keys : List Finding → List String
unfolding finding_key
suppressed_keys [] = []
suppressed_keys (f ∷ fs) = finding_key f.file f.line f.rule_id ∷ suppressed_keys fs

-- `PrefilledWaiverToken`
unfoldable pub prefilled_waiver_token : String → Violation → WaiverPolicy → ℕ → Option String
unfolding waivable_dimension concat
prefilled_waiver_token dimension v policy now =
    let expiry = format_date (now + default_duration accepted_risk) in
    let token =
      concat (waiver_marker ∷ v.rule ∷ ":" ∷ reason_text accepted_risk ∷ ":" ∷ expiry ∷ []) in
    let allowed : Bool = elim policy [ none ↦ true | some allows ↦ allows v.rule v.severity ] in
    if not (waivable_dimension dimension) && not (dimension == step_coverage_threshold)
    then none
    else if not allowed
    then none
    else some token

unfoldable pub with_hint : String → WaiverPolicy → ℕ → Violation → Violation
unfolding prefilled_waiver_token
with_hint dimension policy now v = elim (prefilled_waiver_token dimension v policy now) [
  | none ↦ v
  | some token ↦ record v { waiver_hint = token }
]

abbrev pub is_suppressed : List String → (Violation → ℕ) → Violation → Bool
is_suppressed sup line_of v = member (finding_key v.file (line_of v) v.rule) sup

-- The status of a step once its suppressed findings are taken out.
unfoldable pub status_after : StepResult → List Violation → Status
status_after s kept =
    if is_empty kept && is_fail s.status
    then Status.pass
    else if ltb (length kept) (length s.violations) && is_fail s.status && not s.config_err
    then step_verdict kept
    else s.status

-- The body of the second loop, for the line under which the step's findings are adjudicated.
unfoldable pub subtract_at :
    List String → WaiverPolicy → ℕ → StepResult → Option (Violation → ℕ) → StepResult
unfolding keep member status_after with_hint finding_key
subtract_at sup policy now s none = s
subtract_at sup policy now s (some line_of) =
    let kept =
      map (with_hint s.step_name policy now)
        (keep (λ v. not (is_suppressed sup line_of v)) s.violations) in
    record s { violations = kept; status = status_after s kept }

unfoldable pub subtract_step : List String → WaiverPolicy → ℕ → StepResult → StepResult
unfolding subtract_at waiver_line
subtract_step sup policy now s = subtract_at sup policy now s (waiver_line s)

-- The inputs that `WithWaiver` and `WithUnboundWaiverScan` attach.
pub record WaiverInputs : Type 0 where
  pub read : Option LineReader
  pub policy : WaiverPolicy
  pub now : ℕ
  pub project_tokens : List Waiver
  pub known_namespaces : List String

-- What `computeWaiverResult` leaves: the mutated results, the active waivers and its own result.
pub record Reconciled : Type 0 where
  pub results : List StepResult
  pub active_waivers : List Waiver
  pub step : StepResult

unfoldable pub waiver_findings : (String → String) → Result → List Diagnostic → List Violation
unfolding diagnostic_violation
waiver_findings quote res unbound_found =
    map (diagnostic_violation quote "error") res.malformed_tokens
    ++ (map (diagnostic_violation quote "error") res.non_waivable_tokens
        ++ map (diagnostic_violation quote "warning") unbound_found)

-- `computeWaiverResult`
unfoldable pub compute_waiver_result :
    (String → String) → WaiverInputs → List StepResult → Reconciled
unfolding collect_findings suppressed_keys subtract_step waiver_findings
compute_waiver_result quote inputs accumulated =
    let res = adjudicate (collect_findings accumulated) inputs.read inputs.policy inputs.now in
    let sup = suppressed_keys res.suppressed in
    let unbound_found = unbound_tokens inputs.project_tokens inputs.known_namespaces in
    let wv = waiver_findings quote res unbound_found in
    record {
      results = map (subtract_step sup inputs.policy inputs.now) accumulated;
      active_waivers = res.active;
      step =
          new_step_result step_waiver_resolution (step_verdict wv) wv
            (waiver_reason res unbound_found);
    }
