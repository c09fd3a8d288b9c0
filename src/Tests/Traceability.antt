-- ===== src/Tests/Traceability.antt =====
-- Requirement traceability on concrete records.
use Prim.Native.String.{String}
use backstop_core.Prelude.{true, false, List, [], ◌∷◌, some, ◌≡◌, refl, map, In, inl, lookup}
use backstop_core.FilePath.{normalize_path}
use backstop_core.Gate.Violation.{is_fail, Status}
use backstop_core.Gate.StatusDrift.{
  ArtifactStatusRecord, BundleReqVersion, spec, plan, bundle, non_terminal, success_terminal,
  retired_terminal,
}
use backstop_core.Gate.Traceability.Pins.{
  TraceRef, is_success, supports_coverage, stale_pin_verdict, bundle_req_version,
}
use backstop_core.Gate.Traceability.Refs.{bundles_from, citers_from}
use backstop_core.Gate.Traceability.Classify.{
  classify_requirement_traceability, split_traceability_result,
}
use backstop_core.Gate.Traceability.Supported.{classify_requirement_traceability-Supported}

abbrev requirement : BundleReqVersion
requirement = record { req_id = "REQ-001"; current_version = "1.2.3" }

abbrev delivered_bundle : ArtifactStatusRecord
delivered_bundle = record {
  id = "BUNDLE-014";
  kind = bundle;
  status = "delivered";
  class = success_terminal;
  path = "bundles/tracing.md";
  mandated_tests = [];
  spec_id = "";
  bundle_name = "tracing";
  bundle_reqs = requirement ∷ [];
}

abbrev implemented_spec : ArtifactStatusRecord
implemented_spec = record {
  id = "SPEC-007";
  kind = spec;
  status = "implemented";
  class = success_terminal;
  path = "specs/SPEC-007.md";
  mandated_tests = [];
  spec_id = "";
  bundle_name = "";
  bundle_reqs = [];
}

abbrev replaced_spec : ArtifactStatusRecord
replaced_spec = record implemented_spec { status = "replaced"; class = retired_terminal }

abbrev plan_of_spec : ArtifactStatusRecord
plan_of_spec = record implemented_spec {
  id = "PLAN-SPEC-007";
  kind = plan;
  status = "draft";
  class = non_terminal;
  path = "plans/PLAN-SPEC-007.md";
  spec_id = "SPEC-007";
}

abbrev citing : String → TraceRef
citing pin = record {
  bundle_name = "tracing";
  req_id = "REQ-001";
  pin_version = pin;
  pinned = true;
  citing_path = "./specs/SPEC-007.md";
}

abbrev covered_records : List ArtifactStatusRecord
covered_records = delivered_bundle ∷ implemented_spec ∷ plan_of_spec ∷ []

-- A pin of an earlier patch is not stale.
patch_pin : stale_pin_verdict "1.2.0" "1.2.3" ≡ ("patch", false)
unfolding stale_pin_verdict
patch_pin = refl

minor_pin : stale_pin_verdict "1.1.0" "1.2.3" ≡ ("minor", true)
unfolding stale_pin_verdict
minor_pin = refl

partial_pin : stale_pin_verdict "1.1" "1.2.3" ≡ ("unknown", false)
unfolding stale_pin_verdict
partial_pin = refl

covered_run :
    (classify_requirement_traceability covered_records (citing "1.2.0" ∷ [])).violations ≡ []
unfolding classify_requirement_traceability backstop_core.Text.trim_space
    backstop_core.Gate.Traceability.Pins.req_version_in
covered_run = refl

-- A stale pin is a finding, the plan of the spec is outrun, and the requirement is not covered.
stale_run :
    map {B = String × String × String}
      (λ v. (v.rule, v.file, v.severity))
      (classify_requirement_traceability covered_records (citing "1.1.0" ∷ [])).violations
    ≡ ("requirement_traceability", "./specs/SPEC-007.md", "error")
      ∷ ("requirement_traceability", "plans/PLAN-SPEC-007.md", "error")
      ∷ ("requirement_traceability", "bundles/tracing.md", "error")
      ∷ []
unfolding classify_requirement_traceability backstop_core.Text.trim_space
    backstop_core.Gate.Traceability.Pins.req_version_in
    backstop_core.Gate.Traceability.Classify.outrun
stale_run = refl

-- Of a requirement whose only spec is replaced the coverage has lapsed.
lapsed_run :
    map {B = String}
      (λ v. elim v.trace [ some t ↦ t.gap_kind | _ ↦ "" ])
      (classify_requirement_traceability
        (delivered_bundle ∷ replaced_spec ∷ [])
        (citing "1.2.3" ∷ [])).violations
    ≡ "coverage_lapsed" ∷ []
unfolding classify_requirement_traceability backstop_core.Text.trim_space
    backstop_core.Gate.Traceability.Pins.req_version_in
lapsed_run = refl

-- The requirements of a bundle in flight only warn.
in_flight_run :
    (classify_requirement_traceability
      (record delivered_bundle { status = "draft"; class = non_terminal } ∷ [])
      []).status
    ≡ Status.warning
unfolding classify_requirement_traceability backstop_core.Text.trim_space
    backstop_core.Gate.Traceability.Pins.req_version_in
in_flight_run = refl

covered_passes :
    is_fail
      (split_traceability_result
        (classify_requirement_traceability covered_records (citing "1.2.0" ∷ []))).0.status
    ≡ false
unfolding classify_requirement_traceability split_traceability_result backstop_core.Text.trim_space
    backstop_core.Gate.Traceability.Pins.req_version_in
covered_passes = refl

the_bundle : lookup "tracing" (bundles_from [] covered_records) ≡ some delivered_bundle
unfolding bundles_from lookup
the_bundle = refl

classify_requirement_traceability-Supported_example :
    (ref : TraceRef) × In ref (citing "1.2.0" ∷ [])
    × (ref.bundle_name ≡ "tracing")
    × (ref.req_id ≡ "REQ-001")
    × (citer : ArtifactStatusRecord) × (lookup
          (normalize_path "" ref.citing_path)
          (citers_from [] covered_records)
        ≡ some citer)
    × (supports_coverage citer.kind citer.class ≡ true)
    × ((stale_pin_verdict ref.pin_version (bundle_req_version delivered_bundle "REQ-001")).1
        ≡ false)
classify_requirement_traceability-Supported_example =
    classify_requirement_traceability-Supported covered_records (citing "1.2.0" ∷ []) covered_passes
      "tracing" delivered_bundle the_bundle refl requirement (inl refl)
