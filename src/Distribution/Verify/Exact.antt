-- ===== src/Distribution/Verify/Exact.antt =====
-- When the verification of a lock passes.
use backstop_core.Prelude.{
  String, true, List, [], ◌∷◌, Option, none, some, ◌≡◌, ◌≢◌, refl, sym, ap, ◌∙◌, arith, ◌↔◌, ◌⊎◌,
  inl, inr, All, ◌==◌, eq_iff, Bool-cases, Option-cases, lookup, if_true, if_false,
}
use mathlib.Core.Option.{some-injective}
use backstop_core.Distribution.Tree.{Tree, compute_content_hash}
use backstop_core.Distribution.Lockfile.{LockEntry, Lockfile}
use backstop_core.Distribution.Verify.{
  Installed, VerifyResult, Check, intact, fails, unreadable, installed_tree, check_hash,
  check_installed, check_entry, after_check, verify_entries, extra_check, extra_packs,
  detect_extra_unlocked, passing, with_extra, verify_lock,
}

-- An installed pack is locked.
abbrev pub Known : Lockfile → String × Tree → Type 0
Known lock (name, files) = lookup name lock ≢ none

abbrev pub AllKnown : Lockfile → Installed → Type 0
AllKnown lock none = Unit
AllKnown lock (some packs) = All (Known lock) packs

module _ (sha : String → String) where
  -- A locked pack is local, or it is installed with the content that the lock records.
  abbrev pub InPlace : Installed → String × LockEntry → Type 0
  InPlace packs (name, entry) =
      (entry.source_type ≡ "local")
      ⊎ ((files : Tree) × (installed_tree name packs ≡ some files)
          × (compute_content_hash sha files ≡ some entry.content_hash))

module _ (sha : String → String) (packs_dir : String) where
  check_hash-intact :
      (name locked : String) (current : Option String)
      → (check_hash sha packs_dir name locked current ≡ intact) ↔ (current ≡ some locked)
  check_hash-intact name locked none = ground arith
  check_hash-intact name locked (some current) = ground (arith, eq_iff current locked)

  check_installed-intact :
      (name : String) (entry : LockEntry) (o : Option Tree)
      → (check_installed sha packs_dir name entry o ≡ intact) ↔ (
          (files : Tree) × (o ≡ some files)
          × (compute_content_hash sha files ≡ some entry.content_hash))
  check_installed-intact name entry none = (λ e. absurd (cc), λ h. absurd (cc (h.1)))
  check_installed-intact name entry (some files) = (
    λ e. (
      files,
      refl,
      (check_hash-intact name entry.content_hash (compute_content_hash sha files)).0 e,
    ),
    λ (t, q, h).
        (check_hash-intact name entry.content_hash (compute_content_hash sha files)).1
          (ap (compute_content_hash sha) (some-injective files t q) ∙ h),
  )

  pub check_entry-InPlace :
      (packs : Installed) (name : String) (entry : LockEntry)
      → (check_entry sha packs_dir packs name entry ≡ intact) ↔ InPlace sha packs (name, entry)
  unfolding check_entry
  check_entry-InPlace packs name entry = elim (Bool-cases (entry.source_type == "local")) [
    | inl e ↦ (λ _. inl ((eq_iff entry.source_type "local").0 e), λ _. if_true _ _ e)
    | inr e ↦ (
      λ h. inr (
          (check_installed-intact name entry (installed_tree name packs)).0
            (sym (if_false _ _ e) ∙ h)),
      λ h. elim h [
        | inl l ↦ absurd (cc ((eq_iff entry.source_type "local").1 l))
        | inr i ↦
            if_false _ _ e ∙ (check_installed-intact name entry (installed_tree name packs)).1 i
      ],
    )
  ]

  after_check-pass :
      (c : Check) (r s : VerifyResult) (rest : VerifyResult → Option VerifyResult) (P : Type 0)
      → ((q : VerifyResult) → rest q ≡ some s → (s.pass ≡ true) ↔ ((q.pass ≡ true) × P))
      → after_check sha packs_dir c r rest ≡ some s
      → (s.pass ≡ true) ↔ ((r.pass ≡ true) × (c ≡ intact) × P)
  after_check-pass intact r s rest P h e =
      (λ p. (((h r e).0 p).0, refl, ((h r e).0 p).1), λ (a, _, b). (h r e).1 (a, b))
  after_check-pass (fails f) r s rest P h e =
      (λ p. absurd (cc (((h _ e).0 p).0)), λ (_, q, _). absurd (cc))
  after_check-pass unreadable r s rest P h e = absurd (cc)

  verify_entries-pass :
      (packs : Installed) (lock : Lockfile) (r s : VerifyResult)
      → verify_entries sha packs_dir packs lock r ≡ some s
      → (s.pass ≡ true) ↔ ((r.pass ≡ true) × All (InPlace sha packs) lock)
  unfolding verify_entries
  verify_entries-pass packs [] r s e =
      let same = ap (λ (x : VerifyResult). x.pass) (some-injective r s e) in
      (λ p. (same ∙ p, tt), λ h. sym same ∙ h.0)
  verify_entries-pass packs ((name, entry) ∷ lock) r s e =
      let step =
        after_check-pass (check_entry sha packs_dir packs name entry) r s
          (verify_entries sha packs_dir packs lock) (All (InPlace sha packs) lock)
          (λ q h. verify_entries-pass packs lock q s h) e in
      let here = check_entry-InPlace packs name entry in
      (
        λ p. ((step.0 p).0, (here.0 ((step.0 p).1), (step.0 p).2)),
        λ (a, (b, c)). step.1 (a, here.1 b, c),
      )

  extra_check-pass :
      (name : String) (o : Option LockEntry) (r : VerifyResult)
      → ((extra_check sha packs_dir name o r).pass ≡ true) ↔ ((r.pass ≡ true) × (o ≢ none))
  extra_check-pass name none r = (λ e. absurd (cc), λ h. absurd (h.1 refl))
  extra_check-pass name (some entry) r = (λ e. (e, λ q. absurd (cc)), λ h. h.0)

  extra_packs-pass :
      (lock : Lockfile) (packs : List (String × Tree)) (r : VerifyResult)
      → ((extra_packs sha packs_dir lock packs r).pass ≡ true)
        ↔ ((r.pass ≡ true) × All (Known lock) packs)
  unfolding extra_packs
  extra_packs-pass lock [] r = (λ e. (e, tt), λ h. h.0)
  extra_packs-pass lock ((name, files) ∷ packs) r =
      let here = extra_check-pass name (lookup name lock) r in
      let rest =
        extra_packs-pass lock packs (extra_check sha packs_dir name (lookup name lock) r) in
      (
        λ e. let (p, k) = rest.0 e in ((here.0 p).0, ((here.0 p).1, k)),
        λ (a, (b, c)). rest.1 (here.1 (a, b), c),
      )

  detect_extra_unlocked-pass :
      (lock : Lockfile) (packs : Installed) (r : VerifyResult)
      → ((detect_extra_unlocked sha packs_dir lock packs r).pass ≡ true)
        ↔ ((r.pass ≡ true) × AllKnown lock packs)
  unfolding detect_extra_unlocked
  detect_extra_unlocked-pass lock none r = (λ e. (e, tt), λ h. h.0)
  detect_extra_unlocked-pass lock (some packs) r = extra_packs-pass lock packs r

  -- If no file that it has to digest is unreadable, the verification of a lock passes exactly when
  -- each locked pack that is not local is installed with the digest that the lock records, and each
  -- installed pack is locked.
  pub verify_lock-InPlace :
      (lock : Lockfile) (packs : Installed) (declared : List String) (r : VerifyResult)
      → verify_lock sha packs_dir (some lock) packs declared ≡ some r
      → (r.pass ≡ true) ↔ (All (InPlace sha packs) lock × AllKnown lock packs)
  unfolding verify_lock
  verify_lock-InPlace lock packs declared r e =
      elim (Option-cases (verify_entries sha packs_dir packs lock passing)) [
        | inl n ↦ absurd (cc (sym (ap (with_extra sha packs_dir lock packs) n) ∙ e))
        | inr (s, q) ↦
            let same =
              ap (λ (x : VerifyResult). x.pass)
                (some-injective _ r (sym (ap (with_extra sha packs_dir lock packs) q) ∙ e)) in
            let listed = verify_entries-pass packs lock passing s q in
            let extra = detect_extra_unlocked-pass lock packs s in
            (
              λ p. let (a, b) = extra.0 (same ∙ p) in ((listed.0 a).1, b),
              λ (a, b). sym same ∙ extra.1 (listed.1 (refl, a), b),
            )
      ]

  verify_entries-intact :
      (packs : Installed) (lock : Lockfile) (r : VerifyResult)
      → All (InPlace sha packs) lock
      → verify_entries sha packs_dir packs lock r ≡ some r
  unfolding verify_entries
  verify_entries-intact packs [] r h = refl
  verify_entries-intact packs ((name, entry) ∷ lock) r (h, k) =
      ap (λ c. after_check sha packs_dir c r (verify_entries sha packs_dir packs lock))
        ((check_entry-InPlace packs name entry).1 h)
      ∙ verify_entries-intact packs lock r k

  extra_check_of_known :
      (name : String) (o : Option LockEntry) (r : VerifyResult)
      → o ≢ none
      → extra_check sha packs_dir name o r ≡ r
  extra_check_of_known name none r h = absurd (h refl)
  extra_check_of_known name (some entry) r h = refl

  extra_packs-Known :
      (lock : Lockfile) (packs : List (String × Tree)) (r : VerifyResult)
      → All (Known lock) packs
      → extra_packs sha packs_dir lock packs r ≡ r
  unfolding extra_packs
  extra_packs-Known lock [] r h = refl
  extra_packs-Known lock ((name, files) ∷ packs) r (h, k) =
      ap (extra_packs sha packs_dir lock packs) (extra_check_of_known name (lookup name lock) r h)
      ∙ extra_packs-Known lock packs r k

  detect_extra_unlocked-AllKnown :
      (lock : Lockfile) (packs : Installed) (r : VerifyResult)
      → AllKnown lock packs
      → detect_extra_unlocked sha packs_dir lock packs r ≡ r
  unfolding detect_extra_unlocked
  detect_extra_unlocked-AllKnown lock none r h = refl
  detect_extra_unlocked-AllKnown lock (some packs) r h = extra_packs-Known lock packs r h

  -- Packs that are in place, and all of them locked, pass with no failure.
  pub verify_lock-passing :
      (lock : Lockfile) (packs : Installed) (declared : List String)
      → All (InPlace sha packs) lock
      → AllKnown lock packs
      → verify_lock sha packs_dir (some lock) packs declared ≡ some passing
  unfolding verify_lock
  verify_lock-passing lock packs declared h k =
      ap (with_extra sha packs_dir lock packs) (verify_entries-intact packs lock passing h)
      ∙ ap some (detect_extra_unlocked-AllKnown lock packs passing k)
