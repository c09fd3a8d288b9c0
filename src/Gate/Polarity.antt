-- ===== src/Gate/Polarity.antt =====
-- pkg/gate/traceability_polarity.go: how a traceability dimension that is declared or not, with its
-- capability present or not, turns into a step result. `quote` stands for the format verb `%q`.
pub mod Blocking
use Prim.Native.String.{String, ◌++◌}
use backstop_core.Prelude.{
  Bool, true, false, not, ◌&&◌, ◌||◌, List, [], ◌∷◌, Option, none, some, any, ◌==◌, if◌then◌else◌,
}
use backstop_core.Text.Numbers.{concat}
use backstop_core.Gate.Violation.{Violation, new_violation, Status, StepResult, new_step_result}

-- What the classifier reads of an entry of `enforcement.toolchain`.
pub record ToolchainPass : Type 0 where
  pub gate_type : String
  pub waived : Bool

-- The toolchain of a configuration; `none` is the nil configuration.
abbrev pub Config : Type 0
Config = Option (List ToolchainPass)

-- `isKnownDimension`
unfoldable pub is_known_dimension : String → Bool
is_known_dimension d = d == "substantiveness" || d == "coverage" || d == "contracts"

pub data PolarityClass : Type 0 where
  class_none broken_declared capability_absent declared_intent_unmet : PolarityClass

pub record CapabilityState : Type 0 where
  pub present : Bool
  pub working : Bool
  pub pack_or_command : String
  pub detail : String
  pub stack : String

-- `declaredDimension`
unfoldable pub declared_dimension : Config → String → Bool
unfolding any
declared_dimension none dim = false
declared_dimension (some passes) dim = any (λ tp. tp.gate_type == dim) passes

abbrev pub is_unknown : ToolchainPass → Bool
is_unknown tp = not (tp.gate_type == "") && not (is_known_dimension tp.gate_type)

-- `hasUnknownGateType`
unfoldable pub has_unknown_gate_type : Config → Bool
unfolding any is_known_dimension
has_unknown_gate_type none = false
has_unknown_gate_type (some passes) = any is_unknown passes

-- `ClassifyDimension`
unfoldable pub classify_dimension : Config → String → CapabilityState → PolarityClass
unfolding has_unknown_gate_type declared_dimension
classify_dimension cfg dim cap =
    if has_unknown_gate_type cfg
    then broken_declared
    else if declared_dimension cfg dim
    then (if not cap.present
        then declared_intent_unmet
        else if not cap.working
        then broken_declared
        else class_none)
    else if not cap.present
    then capability_absent
    else class_none

-- `waivedDimension`
unfoldable pub waived_dimension : Config → String → Bool
unfolding any
waived_dimension none dim = false
waived_dimension (some passes) dim = any (λ tp. tp.gate_type == dim && tp.waived) passes

-- `capLabel`
unfoldable pub cap_label : CapabilityState → String
cap_label cap =
    if not (cap.pack_or_command == "") then cap.pack_or_command else "the required capability"

abbrev stack_of : CapabilityState → String
stack_of cap = if cap.stack == "" then "unspecified" else cap.stack

abbrev detail_of : CapabilityState → String
detail_of cap =
    if cap.detail == ""
    then "the declared command failed or its output was unparseable"
    else cap.detail

module _ (quote : String → String) where
  abbrev broken_message : String → CapabilityState → String
  broken_message dim cap = concat (
      "traceability dimension "
      ∷ quote dim
      ∷ " is DECLARED for the "
      ∷ stack_of cap
      ∷ " stack but its declared command "
      ∷ quote (cap_label cap)
      ∷ " is broken: "
      ∷ detail_of cap
      ∷ ". Expected the declared command/format to run and parse cleanly; got: "
      ∷ detail_of cap
      ∷ ". Fix the command or its declared format, or remove the declaration."
      ∷ [])

  abbrev unmet_message : String → CapabilityState → String
  unmet_message dim cap = concat (
      "traceability dimension "
      ∷ quote dim
      ∷ " is DECLARED for the "
      ∷ stack_of cap
      ∷ " stack but its required capability ("
      ∷ cap_label cap
      ∷ ") is missing — a broken promise. Install/declare the capability that provides "
      ∷ quote dim
      ∷ " for the "
      ∷ stack_of cap
      ∷ " stack, or fix the declaration."
      ∷ [])

  abbrev absent_message : String → CapabilityState → String
  absent_message dim cap = concat (
      "traceability dimension "
      ∷ quote dim
      ∷ " has no capability wired for the "
      ∷ stack_of cap
      ∷ " stack — adopt "
      ∷ cap_label cap
      ∷ " (e.g. a "
      ∷ stack_of cap
      ∷ " pack), then declare it via enforcement.toolchain gate_type: "
      ∷ dim
      ∷ "; or waive it (waived: true). This advisory is non-blocking (exit 0)."
      ∷ [])

  -- A step result with one finding, which names no file.
  abbrev one_finding : String → Status → Bool → String → String → String → StepResult
  one_finding step status halts rule message severity =
      record (new_step_result step status (new_violation rule "" message severity ∷ []) "") {
        config_err = halts;
      }

  -- `PolarityStepResult`
  unfoldable pub polarity_step :
      String → String → PolarityClass → Config → CapabilityState → StepResult
  unfolding waived_dimension cap_label concat
  polarity_step step dim broken_declared cfg cap =
      one_finding step Status.fail true (dim ++ "_broken_declared") (broken_message dim cap) "error"
  polarity_step step dim declared_intent_unmet cfg cap =
      one_finding step Status.fail true (dim ++ "_declared_intent_unmet") (unmet_message dim cap)
        "error"
  polarity_step step dim capability_absent cfg cap =
      if waived_dimension cfg dim
      then new_step_result step Status.pass [] (dim ++ " capability-absent advisory waived")
      else one_finding step Status.warning false (dim ++ "_capability_absent")
          (absent_message dim cap) "warning"
  polarity_step step dim class_none cfg cap = new_step_result step Status.pass [] ""
