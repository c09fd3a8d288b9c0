-- ===== src/Gate/Traceability/Classify.antt =====
-- requirement_traceability.go: the findings on stale references, outrun plans and requirements that
-- nothing covers, and the two steps that report them.
use Prim.Native.String.{String}
use backstop_core.Prelude.{
  Bool, true, false, not, ◌&&◌, ◌||◌, List, [], ◌∷◌, ◌++◌, Option, none, some, any, keep, put,
  lookup, if◌then◌else◌,
}
use backstop_core.Text.Numbers.{concat}
use backstop_core.Gate.Violation.{
  Violation, new_violation, Status, StepResult, new_step_result, step_requirement_traceability,
  step_requirement_traceability_advisory,
}
use backstop_core.Gate.StatusDrift.{
  ArtifactKind, plan, BundleReqVersion, ArtifactStatusRecord, is_error, is_warning,
}
use backstop_core.Gate.Traceability.Pins.{TraceRef, is_success, is_spec}
use backstop_core.Gate.Traceability.Refs.{
  Records, is_retired_class, bundles_from, citers_from, specs_from, Flags, has_flag, StaleTraceRef,
  Gathered, gather,
}

-- `bundles[name].Status` and `bundles[name].Class == ClassSuccessTerminal`, of the zero record on a
-- missing key.
abbrev pub status_or_empty : Option ArtifactStatusRecord → String
status_or_empty none = ""
status_or_empty (some rec) = rec.status

abbrev pub success_or_not : Option ArtifactStatusRecord → Bool
success_or_not none = false
success_or_not (some rec) = is_success rec.class

-- `staleSpecOrigin`
pub record StaleSpecOrigin : Type 0 where
  pub bundle_name : String
  pub req_id : String
  pub req_version : String

unfoldable pub stale_pin : Option ArtifactStatusRecord → StaleTraceRef → Violation
unfolding concat
stale_pin bundle s =
    record (new_violation step_requirement_traceability s.ref.citing_path
      (concat (
        "supports ref " ∷ s.ref.bundle_name ∷ ":" ∷ s.ref.req_id ∷ "@" ∷ s.ref.pin_version
        ∷ " pins an older major/minor than current " ∷ s.ref.bundle_name ∷ ":" ∷ s.ref.req_id ∷ "@"
        ∷ s.current_version ∷ "; rework or add a new implemented spec for the current requirement"
        ∷ []))
      "error") {
        trace = some (record {
          bundle = s.ref.bundle_name;
          bundle_maturity = status_or_empty bundle;
          req_id = s.ref.req_id;
          req_version = s.current_version;
          gap_kind = "stale_pin";
          remedy = if success_or_not bundle then "new_spec" else "re_pin";
          pinned_version = s.ref.pin_version;
          bump = s.bump;
          citing_artifact = s.citer_id;
          via = "";
        });
      }

-- The loop over the stale references: its findings.
unfoldable pub stale_findings : Records → Flags → List StaleTraceRef → List Violation
unfolding has_flag stale_pin lookup
stale_findings bundles covered [] = []
stale_findings bundles covered (s ∷ rest) =
    let later = stale_findings bundles covered rest in
    if has_flag s.ref.bundle_name s.ref.req_id covered
    then later
    else stale_pin (lookup s.ref.bundle_name bundles) s ∷ later

abbrev pub origin_of : StaleTraceRef → StaleSpecOrigin
origin_of s = record {
  bundle_name = s.ref.bundle_name;
  req_id = s.ref.req_id;
  req_version = s.current_version;
}

-- The same loop: the specs with a stale reference, the last reference of each.
unfoldable pub stale_specs :
    Flags → List (String × StaleSpecOrigin) → List StaleTraceRef → List (String × StaleSpecOrigin)
unfolding has_flag put
stale_specs covered m [] = m
stale_specs covered m (s ∷ rest) =
    stale_specs covered
      (if not (has_flag s.ref.bundle_name s.ref.req_id covered) && is_spec s.citer_kind
        then put s.citer_id (origin_of s) m
        else m)
      rest

unfoldable pub outrun :
    Records → ArtifactStatusRecord → ArtifactStatusRecord → StaleSpecOrigin → Violation
unfolding concat lookup
outrun bundles rec spec origin =
    record (new_violation step_requirement_traceability rec.path
      (concat (
        "plan " ∷ rec.id ∷ " targets spec " ∷ spec.id
        ∷ " whose bundle requirement chain does not verify" ∷ []))
      "error") {
        trace = some (record {
          bundle = origin.bundle_name;
          bundle_maturity = status_or_empty (lookup origin.bundle_name bundles);
          req_id = origin.req_id;
          req_version = origin.req_version;
          gap_kind = "chain_outrun";
          remedy = "resolve_upstream";
          pinned_version = "";
          bump = "";
          citing_artifact = "";
          via = spec.id;
        });
      }

abbrev pub is_plan : ArtifactKind → Bool
is_plan plan = true
is_plan _ = false

module _ (bundles specs : Records) (stale : List (String × StaleSpecOrigin)) where
  abbrev pub outrun_by :
      ArtifactStatusRecord → ArtifactStatusRecord → Option StaleSpecOrigin → List Violation
  outrun_by rec spec none = []
  outrun_by rec spec (some origin) = outrun bundles rec spec origin ∷ []

  abbrev pub outrun_of : ArtifactStatusRecord → Option ArtifactStatusRecord → List Violation
  outrun_of rec none = []
  outrun_of rec (some spec) = outrun_by rec spec (lookup spec.id stale)

  -- The loop over the plans.
  unfoldable pub outrun_findings : List ArtifactStatusRecord → List Violation
  unfolding lookup
  outrun_findings [] = []
  outrun_findings (rec ∷ records) =
      let rest = outrun_findings records in
      if not (is_plan rec.kind) || is_retired_class rec.class
      then rest
      else outrun_of rec (lookup rec.spec_id specs) ++ rest

unfoldable pub uncovered : Flags → ArtifactStatusRecord → BundleReqVersion → Violation
unfolding concat has_flag
uncovered lapsed bundle req =
    let was_covered = has_flag bundle.bundle_name req.req_id lapsed in
    record (new_violation
      (if is_success bundle.class
        then step_requirement_traceability
        else step_requirement_traceability_advisory)
      bundle.path
      (concat (
        "bundle " ∷ bundle.bundle_name ∷ " requirement " ∷ req.req_id
        ∷ " has no implemented-spec coverage" ∷ []))
      (if is_success bundle.class then "error" else "warning")) {
        trace = some (record {
          bundle = bundle.bundle_name;
          bundle_maturity = bundle.status;
          req_id = req.req_id;
          req_version = req.current_version;
          gap_kind = if was_covered then "coverage_lapsed" else "uncovered";
          remedy = if was_covered then "restate_supports" else "author_spec";
          pinned_version = "";
          bump = "";
          citing_artifact = "";
          via = "";
        });
      }

module _ (covered lapsed : Flags) where
  unfoldable pub uncovered_reqs : ArtifactStatusRecord → List BundleReqVersion → List Violation
  unfolding has_flag uncovered
  uncovered_reqs bundle [] = []
  uncovered_reqs bundle (req ∷ reqs) =
      let rest = uncovered_reqs bundle reqs in
      if has_flag bundle.bundle_name req.req_id covered
      then rest
      else uncovered lapsed bundle req ∷ rest

  -- The loop over the bundles, in the order of the association list.
  unfoldable pub uncovered_findings : Records → List Violation
  unfolding uncovered_reqs
  uncovered_findings [] = []
  uncovered_findings ((name, bundle) ∷ bundles) =
      let rest = uncovered_findings bundles in
      if is_retired_class bundle.class
      then rest
      else uncovered_reqs bundle bundle.bundle_reqs ++ rest

-- `traceabilityStepResult`
unfoldable pub traceability_step_result : String → List Violation → StepResult
unfolding any
traceability_step_result step vs =
    new_step_result step
      (if any is_error vs
        then Status.fail
        else if any is_warning vs
        then Status.warning
        else Status.pass)
      vs ""

unfoldable pub traceability_violations :
    List ArtifactStatusRecord → Records → Gathered → List Violation
unfolding stale_findings outrun_findings uncovered_findings specs_from stale_specs
traceability_violations records bundles g =
    g.found
    ++ stale_findings bundles g.covered g.stale_refs
    ++ outrun_findings bundles (specs_from [] records) (stale_specs g.covered [] g.stale_refs)
        records
    ++ uncovered_findings g.covered g.lapsed bundles

-- `ClassifyRequirementTraceability`
unfoldable pub classify_requirement_traceability :
    List ArtifactStatusRecord → List TraceRef → StepResult
unfolding bundles_from citers_from gather traceability_violations traceability_step_result
classify_requirement_traceability records refs =
    let bundles = bundles_from [] records in
    traceability_step_result step_requirement_traceability
      (traceability_violations records bundles (gather bundles (citers_from [] records) refs))

-- `SplitTraceabilityResult`
unfoldable pub split_traceability_result : StepResult → StepResult × StepResult
unfolding traceability_step_result keep
split_traceability_result combined = (
  traceability_step_result step_requirement_traceability (keep is_error combined.violations),
  traceability_step_result step_requirement_traceability_advisory
      (keep (λ v. not (is_error v)) combined.violations),
)
