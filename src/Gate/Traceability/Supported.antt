-- ===== src/Gate/Traceability/Supported.antt =====
-- What supports the requirements of a delivered bundle when the policied step does not fail.
use Prim.Native.String.{String}
use backstop_core.Prelude.{
  true, false, List, [], ◌∷◌, none, some, ◌≡◌, sym, ap, ◌∙◌, subst, inl, inr, In, Bool-cases, put,
  lookup, lookup-put, ◌==◌, eq_iff, if_true, if_false,
}
use backstop_core.FilePath.{normalize_path}
use backstop_core.Gate.Violation.{is_fail}
use backstop_core.Gate.StatusDrift.{
  ArtifactKind, issue, spec, directive, plan, bundle, BundleReqVersion, ArtifactStatusRecord,
}
use backstop_core.Gate.Traceability.Pins.{
  TraceRef, is_success, supports_coverage, stale_pin_verdict, bundle_req_version,
}
use backstop_core.Gate.Traceability.Refs.{Records, add_bundle, bundles_from, citers_from, gather}
use backstop_core.Gate.Traceability.Classify.{
  classify_requirement_traceability, split_traceability_result,
}
use backstop_core.Gate.Traceability.Covering.{gather-Backed}
use backstop_core.Gate.Traceability.Uncovered.{
  uncovered_findings-Quiet, traceability_violations-Quiet, split-Quiet,
}

-- A map from the names of bundles.
abbrev Named : Records → Type 0
Named m = (name : String) (b : ArtifactStatusRecord) → lookup name m ≡ some b → b.bundle_name ≡ name

put-Named : (rec : ArtifactStatusRecord) (m : Records) → Named m → Named (put rec.bundle_name rec m)
put-Named rec m named name b q =
    let q' = sym (lookup-put rec.bundle_name name rec m) ∙ q in
    elim (Bool-cases (rec.bundle_name == name)) [
      | inl e ↦
          ap (λ o. elim o [ none ↦ rec.bundle_name | some r ↦ r.bundle_name ])
            (sym q' ∙ if_true (some rec) (lookup name m) e)
          ∙ (eq_iff rec.bundle_name name).0 e
      | inr e ↦ named name b (sym (if_false (some rec) (lookup name m) e) ∙ q')
    ]

add_bundle-Named :
    (rec : ArtifactStatusRecord) (kind : ArtifactKind) (m : Records)
    → Named m
    → Named (add_bundle rec kind m)
add_bundle-Named rec issue m named = named
add_bundle-Named rec spec m named = named
add_bundle-Named rec directive m named = named
add_bundle-Named rec plan m named = named
add_bundle-Named rec bundle m named = elim (Bool-cases (rec.bundle_name == "")) [
  | inl e ↦ subst Named (sym (if_true _ _ e)) named
  | inr e ↦ subst Named (sym (if_false _ _ e)) (put-Named rec m named)
]

bundles_from-Named :
    (m : Records) (records : List ArtifactStatusRecord) → Named m → Named (bundles_from m records)
unfolding bundles_from
bundles_from-Named m [] named = named
bundles_from-Named m (rec ∷ records) named =
    bundles_from-Named (add_bundle rec rec.kind m) records (add_bundle-Named rec rec.kind m named)

[]-Named : Named []
unfolding lookup
[]-Named name b q = absurd (cc)

lookup-In :
    (name : String) (m : Records) (b : ArtifactStatusRecord)
    → lookup name m ≡ some b
    → (key : String) × In (key, b) m
unfolding lookup
lookup-In name [] b q = absurd (cc)
lookup-In name ((j, w) ∷ m) b q = elim (Bool-cases (j == name)) [
  | inl e ↦
      (j, inl (ap (λ o. elim o [ none ↦ (j, w) | some r ↦ (j, r) ]) (sym (if_true _ _ e) ∙ q)))
  | inr e ↦ let (key, i) = lookup-In name m b (sym (if_false _ _ e) ∙ q) in (key, inr i)
]

-- If the policied step does not fail, then every requirement of each bundle that the last record of
-- its name declares delivered is supported: some reference to that bundle and requirement is cited by
-- a spec that is implemented, with a pin that is not stale for the version of the requirement.
pub classify_requirement_traceability-Supported :
    (records : List ArtifactStatusRecord) (refs : List TraceRef)
    → is_fail (split_traceability_result (classify_requirement_traceability records refs)).0.status
      ≡ false
    → (name : String) (b : ArtifactStatusRecord) → lookup name (bundles_from [] records) ≡ some b
    → is_success b.class ≡ true
    → (req : BundleReqVersion) → In req b.bundle_reqs
    → (ref : TraceRef) × In ref refs
      × (ref.bundle_name ≡ name)
      × (ref.req_id ≡ req.req_id)
      × (citer : ArtifactStatusRecord) × (lookup
            (normalize_path "" ref.citing_path)
            (citers_from [] records)
          ≡ some citer)
      × (supports_coverage citer.kind citer.class ≡ true)
      × ((stale_pin_verdict ref.pin_version (bundle_req_version b req.req_id)).1 ≡ false)
classify_requirement_traceability-Supported records refs h name b q s req i =
    let bundles = bundles_from [] records in
    let citers = citers_from [] records in
    let g = gather bundles citers refs in
    let (key, k) = lookup-In name bundles b q in
    let flag =
      uncovered_findings-Quiet g.covered g.lapsed bundles
        (traceability_violations-Quiet records bundles g (split-Quiet records refs h)) key b k s req
        i in
    let (ref, m, n, r, (target, t, citer, c, p, u)) =
      gather-Backed bundles citers refs b.bundle_name req.req_id flag in
    let named = n ∙ bundles_from-Named [] records []-Named name b q in
    let same =
      ap (λ o. elim o [ none ↦ b | some x ↦ x ]) (sym t ∙ ap (λ x. lookup x bundles) named ∙ q) in
    (
      ref,
      m,
      named,
      r,
      citer,
      c,
      p,
      subst (λ x. (stale_pin_verdict ref.pin_version (bundle_req_version b x)).1 ≡ false) r
          (subst
            (λ x. (stale_pin_verdict ref.pin_version (bundle_req_version x ref.req_id)).1 ≡ false)
            same u),
    )
