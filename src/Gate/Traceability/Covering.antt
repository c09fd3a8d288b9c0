-- ===== src/Gate/Traceability/Covering.antt =====
-- Which references stand behind a requirement that counts as covered.
use Prim.Native.String.{String}
use backstop_core.Prelude.{
  Bool, true, false, not, ◌&&◌, List, [], ◌∷◌, Option, none, some, ◌≡◌, refl, sym, ap, ◌∙◌, arith,
  ◌⊎◌, inl, inr, In, Bool-cases, lookup, ◌==◌, eq_iff, and-eq_true,
}
use backstop_core.FilePath.{normalize_path}
use backstop_core.Gate.StatusDrift.{ArtifactStatusRecord}
use backstop_core.Gate.Traceability.Pins.{
  TraceRef, is_spec, supports_coverage, stale_pin_verdict, bundle_req_version,
}
use backstop_core.Gate.Traceability.Refs.{
  Records, is_retired_class, has_flag, Gathered, add_lapsed, add_live, add_ref, gather,
}

-- What a reference that covers a requirement is.
abbrev pub Covers : TraceRef → Option ArtifactStatusRecord → Option ArtifactStatusRecord → Type 0
Covers ref o citing =
    (target : ArtifactStatusRecord) × (o ≡ some target)
    × (citer : ArtifactStatusRecord) × (citing ≡ some citer)
    × (supports_coverage citer.kind citer.class ≡ true)
    × ((stale_pin_verdict ref.pin_version (bundle_req_version target ref.req_id)).1 ≡ false)

abbrev NewFlag : TraceRef → String → String → Type 0
NewFlag ref a b = (ref.bundle_name ≡ a) × (ref.req_id ≡ b)

add_live-covered :
    (ref : TraceRef) (target citer : ArtifactStatusRecord) (version : String) (v : String × Bool)
    (rest : Gathered) (a b : String)
    → has_flag a b (add_live ref target citer version v rest).covered ≡ true
    → (has_flag a b rest.covered ≡ true)
      ⊎ (NewFlag ref a b × (supports_coverage citer.kind citer.class ≡ true) × (v.1 ≡ false))
unfolding add_live has_flag
add_live-covered ref target citer version (bump, stale) rest a b h =
    elim (Bool-cases (supports_coverage citer.kind citer.class && not stale)) [
      | inr e ↦ inl (rw e at h)
      | inl e ↦ elim (Bool-cases (ref.bundle_name == a && ref.req_id == b)) [
        | inr f ↦ inl (rw (e, f) at h)
        | inl f ↦
            let (s, t) = and-eq_true _ _ e in
            let (x, y) = and-eq_true _ _ f in
            inr (((eq_iff ref.bundle_name a).0 x, (eq_iff ref.req_id b).0 y), s, ground (arith))
      ]
    ]

add_lapsed-covered :
    (ref : TraceRef) (citer : ArtifactStatusRecord) (rest : Gathered)
    → (add_lapsed ref citer rest).covered ≡ rest.covered
unfolding add_lapsed
add_lapsed-covered ref citer rest = elim (Bool-cases (is_spec citer.kind)) [
  | inl e ↦ rw e
  | inr e ↦ rw e
]

add_ref-covered :
    (ref : TraceRef) (o citing : Option ArtifactStatusRecord) (rest : Gathered) (a b : String)
    → has_flag a b (add_ref ref o citing rest).covered ≡ true
    → (has_flag a b rest.covered ≡ true) ⊎ (NewFlag ref a b × Covers ref o citing)
unfolding add_ref
add_ref-covered ref none citing rest a b h = inl h
add_ref-covered ref (some target) none rest a b h = inl h
add_ref-covered ref (some target) (some citer) rest a b h =
    elim (Bool-cases (is_retired_class target.class)) [
      | inl e ↦ inl (rw e at h)
      | inr e ↦ elim (Bool-cases (is_retired_class citer.class)) [
        | inl f ↦
            inl (sym (ap (has_flag a b) (add_lapsed-covered ref citer rest)) ∙ (rw (e, f) at h))
        | inr f ↦
            elim (add_live-covered ref target citer (bundle_req_version target ref.req_id)
              (stale_pin_verdict ref.pin_version (bundle_req_version target ref.req_id)) rest a b
              (rw (e, f) at h)) [
                | inl old ↦ inl old
                | inr (new, s, t) ↦ inr (new, (target, refl, citer, refl, s, t))
              ]
      ]
    ]

module _ (bundles citers : Records) where
  abbrev pub Backed : List TraceRef → String → String → Type 0
  Backed refs name req_id =
      (ref : TraceRef) × In ref refs
      × (ref.bundle_name ≡ name)
      × (ref.req_id ≡ req_id)
      × Covers ref (lookup ref.bundle_name bundles)
          (lookup (normalize_path "" ref.citing_path) citers)

  pub gather-Backed :
      (refs : List TraceRef) (a b : String)
      → has_flag a b (gather bundles citers refs).covered ≡ true
      → Backed refs a b
  unfolding gather has_flag
  gather-Backed [] a b h = absurd (cc)
  gather-Backed (ref ∷ refs) a b h =
      elim (add_ref-covered ref (lookup ref.bundle_name bundles)
        (lookup (normalize_path "" ref.citing_path) citers) (gather bundles citers refs) a b h) [
          | inl old ↦
              let (r, i, n, q, covers) = gather-Backed refs a b old in (r, inr i, n, q, covers)
          | inr ((n, q), covers) ↦ (ref, inl refl, n, q, covers)
        ]
