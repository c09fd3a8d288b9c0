-- ===== src/Gate/StatusDrift.antt =====
-- pkg/gate/artifact_status.go: the class of a declared status, and pkg/gate/status_drift.go: what
-- an artifact promises against the tests that exist.
pub mod Promises
use Prim.Native.String.{String}
use backstop_core.Prelude.{
  Bool, true, false, not, ◌&&◌, ◌||◌, List, [], ◌∷◌, ◌++◌, keep, is_empty, any, map, ◌==◌,
  if◌then◌else◌,
}
use backstop_core.Text.Numbers.{concat}
use backstop_core.Gate.Violation.{
  Violation, new_violation, Status, StepResult, new_step_result, step_artifact_status_drift,
  step_artifact_status_drift_advisory,
}

pub data StatusClass : Type 0 where
  non_terminal success_terminal retired_terminal : StatusClass

-- `(StatusClass).String`
abbrev pub class_text : StatusClass → String
class_text non_terminal = "non-terminal"
class_text success_terminal = "success-terminal"
class_text retired_terminal = "retired-terminal"

pub data ArtifactKind : Type 0 where
  issue spec directive plan bundle : ArtifactKind

unfoldable pub is_retired : String → Bool
is_retired s = s == "replaced" || s == "canceled" || s == "deprecated" || s == "obsoleted"

unfoldable pub is_delivered : ArtifactKind → String → Bool
is_delivered issue s = s == "closed"
is_delivered spec s = s == "implemented"
is_delivered directive s = s == "done"
is_delivered plan s = s == "completed"
is_delivered bundle s = s == "delivered"

-- `ClassifyArtifactStatus`
unfoldable pub classify_artifact_status : ArtifactKind → String → StatusClass
unfolding is_retired is_delivered
classify_artifact_status kind s =
    if is_retired s
    then retired_terminal
    else if is_delivered kind s
    then success_terminal
    else non_terminal

-- `MandatedTest`
pub record MandatedTest : Type 0 where
  pub func_name : String
  pub file_path : String
  pub spec_file : String
  pub target_pkg : String
  pub spec_id : String
  pub claim_id : String
  pub status : String
  pub is_absence : Bool

-- `BundleReqVersion`
pub record BundleReqVersion : Type 0 where
  pub req_id : String
  pub current_version : String

pub record ArtifactStatusRecord : Type 0 where
  pub id : String
  pub kind : ArtifactKind
  pub status : String
  pub class : StatusClass
  pub path : String
  pub mandated_tests : List MandatedTest
  pub spec_id : String
  pub bundle_name : String
  pub bundle_reqs : List BundleReqVersion

-- `driftBrokenPromiseMessage`
unfoldable pub broken_promise_message : ArtifactStatusRecord → MandatedTest → String
unfolding concat
broken_promise_message rec mt = concat (
    "artifact "
    ∷ rec.id
    ∷ " is "
    ∷ rec.status
    ∷ " ("
    ∷ class_text rec.class
    ∷ ") but its mandated test "
    ∷ mt.func_name
    ∷ " is ABSENT"
    ∷ (if mt.claim_id == "" then "" else concat (", claim " ∷ mt.claim_id ∷ []))
    ∷ " — a broken promise (claimed done, isn't). Restore/repoint the mandated test, or retire the artifact (replaced/canceled/deprecated) if the promise no longer holds."
    ∷ [])

-- `driftDeliveredOpenMessage`
unfoldable pub delivered_open_message : ArtifactStatusRecord → String
unfolding concat
delivered_open_message rec = concat (
    "artifact "
    ∷ rec.id
    ∷ " is "
    ∷ rec.status
    ∷ " ("
    ∷ class_text rec.class
    ∷ ") but all its mandated tests are PRESENT — it looks delivered. Advance its status toward closure if the work is in fact done. This advisory is non-blocking (exit 0)."
    ∷ [])

-- `present` is the map from the names of tests to whether they exist.
module _ (present : String → Bool) where
  abbrev pub is_absent : MandatedTest → Bool
  is_absent mt = not (present mt.func_name)

  -- `looksDelivered`
  unfoldable pub looks_delivered : ArtifactStatusRecord → Bool
  unfolding any
  looks_delivered rec = not (is_empty rec.mandated_tests) && not (any is_absent rec.mandated_tests)

  abbrev pub broken_promise : ArtifactStatusRecord → MandatedTest → Violation
  broken_promise rec mt =
      new_violation step_artifact_status_drift rec.path (broken_promise_message rec mt) "error"

  abbrev pub delivered_open : ArtifactStatusRecord → Violation
  delivered_open rec =
      new_violation step_artifact_status_drift_advisory rec.path (delivered_open_message rec)
        "warning"

  -- The body of the loop of `ClassifyStatusDrift`, by class.
  unfoldable pub drift_by_class : StatusClass → ArtifactStatusRecord → List Violation
  unfolding keep looks_delivered
  drift_by_class retired_terminal rec = []
  drift_by_class success_terminal rec = map (broken_promise rec) (keep is_absent rec.mandated_tests)
  drift_by_class non_terminal rec = if looks_delivered rec then delivered_open rec ∷ [] else []

  unfoldable pub drift_violations : List ArtifactStatusRecord → List Violation
  unfolding drift_by_class
  drift_violations [] = []
  drift_violations (rec ∷ recs) = drift_by_class rec.class rec ++ drift_violations recs

abbrev pub is_error : Violation → Bool
is_error v = v.severity == "error"

abbrev pub is_warning : Violation → Bool
is_warning v = v.severity == "warning"

-- `driftStepResult`
unfoldable pub drift_step_result : String → List Violation → StepResult
unfolding any
drift_step_result step vs =
    new_step_result step
      (if any is_error vs
        then Status.fail
        else if any is_warning vs
        then Status.warning
        else Status.pass)
      vs ""

-- `ClassifyStatusDrift`
unfoldable pub classify_status_drift : (String → Bool) → List ArtifactStatusRecord → StepResult
unfolding drift_violations drift_step_result
classify_status_drift present recs =
    drift_step_result step_artifact_status_drift (drift_violations present recs)

-- `SplitDriftResult`
unfoldable pub split_drift_result : StepResult → StepResult × StepResult
unfolding drift_step_result keep
split_drift_result combined = (
  drift_step_result step_artifact_status_drift (keep is_error combined.violations),
  drift_step_result step_artifact_status_drift_advisory
      (keep (λ v. not (is_error v)) combined.violations),
)
