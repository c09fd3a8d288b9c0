-- ===== src/Gate/Traceability/Uncovered.antt =====
-- What no error among the findings says of the requirements of a delivered bundle.
use Prim.Native.String.{String}
use backstop_core.Prelude.{
  true, false, List, [], ◌∷◌, ◌++◌, ◌≡◌, refl, sym, ap, ◌∙◌, subst, arith, inl, inr, In, Bool-cases,
  any,
}
use backstop_core.Gate.Violation.{is_fail}
use backstop_core.Gate.StatusDrift.{
  StatusClass, retired_terminal, success_terminal, non_terminal, BundleReqVersion,
  ArtifactStatusRecord, is_error,
}
use backstop_core.Gate.StatusDrift.Promises.{any-keep_same}
use backstop_core.Gate.Coverage.Sets.{any_append}
use backstop_core.Gate.Traceability.Pins.{TraceRef, is_success}
use backstop_core.Gate.Traceability.Refs.{
  Records, is_retired_class, bundles_from, citers_from, specs_from, Flags, has_flag, Gathered,
  gather,
}
use backstop_core.Gate.Traceability.Classify.{
  stale_findings, outrun_findings, uncovered, uncovered_reqs, uncovered_findings, stale_specs,
  traceability_violations, classify_requirement_traceability, split_traceability_result,
}

success-live : (c : StatusClass) → is_success c ≡ true → is_retired_class c ≡ false
success-live success_terminal h = refl
success-live retired_terminal h = absurd (cc)
success-live non_terminal h = refl

module _ (covered lapsed : Flags) where
  uncovered-Loud :
      (b : ArtifactStatusRecord) (req : BundleReqVersion)
      → is_success b.class ≡ true
      → is_error (uncovered lapsed b req) ≡ true
  unfolding uncovered
  uncovered-Loud b req s = rw s

  uncovered_reqs-Quiet :
      (b : ArtifactStatusRecord) (reqs : List BundleReqVersion)
      → is_success b.class ≡ true
      → any is_error (uncovered_reqs covered lapsed b reqs) ≡ false
      → (req : BundleReqVersion) → In req reqs
      → has_flag b.bundle_name req.req_id covered ≡ true
  unfolding uncovered_reqs any
  uncovered_reqs-Quiet b [] s h req i = absurd i
  uncovered_reqs-Quiet b (r ∷ reqs) s h req i =
      elim (Bool-cases (has_flag b.bundle_name r.req_id covered)) [
        | inr e ↦ absurd (cc (uncovered-Loud b r s, rw e at h))
        | inl e ↦ elim i [
          | inl q ↦ subst (λ x. has_flag b.bundle_name x.req_id covered ≡ true) q e
          | inr j ↦ uncovered_reqs-Quiet b reqs s (rw e at h) req j
        ]
      ]

  pub uncovered_findings-Quiet :
      (bundles : Records)
      → any is_error (uncovered_findings covered lapsed bundles) ≡ false
      → (key : String) (b : ArtifactStatusRecord) → In (key, b) bundles
      → is_success b.class ≡ true
      → (req : BundleReqVersion) → In req b.bundle_reqs
      → has_flag b.bundle_name req.req_id covered ≡ true
  unfolding uncovered_findings
  uncovered_findings-Quiet [] h key b i s req j = absurd i
  uncovered_findings-Quiet ((k, w) ∷ bundles) h key b i s req j =
      elim (Bool-cases (is_retired_class w.class)) [
        | inl e ↦ elim i [
          | inl q ↦
              absurd (cc (sym e ∙ ap (λ x. is_retired_class x.1.class) q ∙ success-live b.class s))
          | inr i' ↦ uncovered_findings-Quiet bundles (rw e at h) key b i' s req j
        ]
        | inr e ↦
            let (here, rest) = any_append is_error _ _ (rw e at h) in
            elim i [
              | inl q ↦
                  uncovered_reqs-Quiet b b.bundle_reqs s
                    (subst
                      (λ x.
                        any is_error (uncovered_reqs covered lapsed x.1 x.1.bundle_reqs) ≡ false)
                      q here)
                    req j
              | inr i' ↦ uncovered_findings-Quiet bundles rest key b i' s req j
            ]
      ]

pub traceability_violations-Quiet :
    (records : List ArtifactStatusRecord) (bundles : Records) (g : Gathered)
    → any is_error (traceability_violations records bundles g) ≡ false
    → any is_error (uncovered_findings g.covered g.lapsed bundles) ≡ false
unfolding traceability_violations
traceability_violations-Quiet records bundles g h =
    let stale = stale_findings bundles g.covered g.stale_refs in
    let outrun =
      outrun_findings bundles (specs_from [] records) (stale_specs g.covered [] g.stale_refs)
        records in
    let missing = uncovered_findings g.covered g.lapsed bundles in
    (any_append is_error (g.found ++ stale ++ outrun) missing h).1

pub split-Quiet :
    (records : List ArtifactStatusRecord) (refs : List TraceRef)
    → is_fail (split_traceability_result (classify_requirement_traceability records refs)).0.status
      ≡ false
    → let bundles = bundles_from [] records in
      any is_error
        (traceability_violations records bundles (gather bundles (citers_from [] records) refs))
      ≡ false
unfolding split_traceability_result classify_requirement_traceability
    backstop_core.Gate.Traceability.Classify.traceability_step_result
split-Quiet records refs h =
    let bundles = bundles_from [] records in
    let vs =
      traceability_violations records bundles (gather bundles (citers_from [] records) refs) in
    ground (arith, any-keep_same is_error vs)
