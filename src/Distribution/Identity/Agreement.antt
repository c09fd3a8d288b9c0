-- ===== src/Distribution/Identity/Agreement.antt =====
-- Which packs the identity gate lets through, and as what.
use backstop_core.Prelude.{
  String, true, false, Option, none, some, ◌≡◌, refl, sym, ap, ◌∙◌, ◌↔◌, ◌==◌, eq_iff, Bool-cases,
  inl, inr, if_true, if_false,
}
use backstop_core.Distribution.Reference.{normalize_release_version, validate_pack_name}
use backstop_core.Distribution.Identity.{
  RemoteIdentity, Identified, identified, refused, ManifestIdentity, unreadable, nameless, named,
  identity_of, check_name, check_version, check_manifest, check_effective, validate_remote_identity,
}

-- The manifest names the pack usably and declares the version that was asked for.
abbrev pub Agrees : String → String → ManifestIdentity → RemoteIdentity → Type 0
Agrees coordinate version manifest i =
    (name : String) × (declared : String) × (effective : String) × (manifest ≡ named name declared)
    × (normalize_release_version version ≡ some effective)
    × (normalize_release_version declared ≡ some effective)
    × (validate_pack_name name ≡ true)
    × (i ≡ identity_of coordinate effective name)

identity : RemoteIdentity → Identified → RemoteIdentity
identity i (identified j) = j
identity i (refused r) = i

version-nonempty :
    (declared effective : String)
    → normalize_release_version declared ≡ some effective
    → (declared == "") ≡ false
version-nonempty declared effective h = elim (Bool-cases (declared == "")) [
  | inr e ↦ e
  | inl e ↦
      let none_there : normalize_release_version "" ≡ none =
        unfold normalize_release_version in refl in
      absurd (cc (sym (ap normalize_release_version ((eq_iff declared "").0 e)) ∙ h, none_there))
]

module _ (coordinate : String) where
  check_name-identified :
      (effective name : String) (i : RemoteIdentity)
      → check_name coordinate effective name ≡ identified i
      → (validate_pack_name name ≡ true) × (i ≡ identity_of coordinate effective name)
  unfolding identity
  check_name-identified effective name i h = elim (Bool-cases (validate_pack_name name)) [
    | inl e ↦ (e, sym (ap (identity i) (sym (if_true _ _ e) ∙ h)))
    | inr e ↦ absurd (cc (sym (if_false _ _ e) ∙ h))
  ]

  check_version-identified :
      (effective name declared : String) (o : Option String) (i : RemoteIdentity)
      → check_version coordinate effective name declared o ≡ identified i
      → (o ≡ some effective)
        × (validate_pack_name name ≡ true)
        × (i ≡ identity_of coordinate effective name)
  check_version-identified effective name declared none i h = absurd (cc)
  check_version-identified effective name declared (some version) i h =
      elim (Bool-cases (version == effective)) [
        | inl e ↦
            let (a, b) = check_name-identified effective name i (sym (if_true _ _ e) ∙ h) in
            (ap some ((eq_iff version effective).0 e), a, b)
        | inr e ↦ absurd (cc (sym (if_false _ _ e) ∙ h))
      ]

  check_manifest-identified :
      (effective : String) (m : ManifestIdentity) (i : RemoteIdentity)
      → check_manifest coordinate effective m ≡ identified i
      → (name : String) × (declared : String) × (m ≡ named name declared)
        × (normalize_release_version declared ≡ some effective)
        × (validate_pack_name name ≡ true)
        × (i ≡ identity_of coordinate effective name)
  check_manifest-identified effective unreadable i h = absurd (cc)
  check_manifest-identified effective nameless i h = absurd (cc)
  check_manifest-identified effective (named name declared) i h =
      elim (Bool-cases (declared == "")) [
        | inl e ↦ absurd (cc (sym (if_true _ _ e) ∙ h))
        | inr e ↦
            let (a, b, c) =
              check_version-identified effective name declared (normalize_release_version declared)
                i (sym (if_false _ _ e) ∙ h) in
            (name, declared, refl, a, b, c)
      ]

  check_effective-identified :
      (version : String) (m : ManifestIdentity) (o : Option String) (i : RemoteIdentity)
      → normalize_release_version version ≡ o
      → check_effective coordinate version m o ≡ identified i
      → Agrees coordinate version m i
  check_effective-identified version m none i q h = absurd (cc)
  check_effective-identified version m (some effective) i q h =
      let (name, declared, a, b, c, d) = check_manifest-identified effective m i h in
      (name, declared, effective, a, q, b, c, d)

  -- A cloned pack passes the identity gate exactly when its manifest has a usable name and declares
  -- the requested version, both strict; then it is installed under the name of the manifest, with
  -- the tag of that version, and counts as diverged just when the name is not the coordinate.
  pub validate_remote_identity-Agrees :
      (version : String) (m : ManifestIdentity) (i : RemoteIdentity)
      → (validate_remote_identity coordinate version m ≡ identified i)
        ↔ Agrees coordinate version m i
  unfolding validate_remote_identity
  validate_remote_identity-Agrees version m i = (
    λ h. check_effective-identified version m (normalize_release_version version) i refl h,
    λ (name, declared, effective, a, b, c, d, e).
        ap (check_effective coordinate version m) b
        ∙ ap (check_manifest coordinate effective) a
        ∙ if_false _ _ (version-nonempty declared effective c)
        ∙ ap (check_version coordinate effective name declared) c
        ∙ if_true {b = effective == effective} _ _ ((eq_iff effective effective).1 refl)
        ∙ if_true _ _ d
        ∙ ap identified (sym e),
  )
