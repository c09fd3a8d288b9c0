-- ===== src/Gate/Baseline/Index.antt =====
-- What the set of hashes of a list of findings holds.
use backstop_core.Prelude.{
  String, true, ◌||◌, List, [], ◌∷◌, ◌==◌, ◌≡◌, refl, ◌⊎◌, inl, inr, arith, eq_iff, put, lookup-put,
  In, Bool-cases, ◌∙◌, ap,
}
use backstop_core.Gate.Violation.{Violation}
use backstop_core.Gate.Identity.{enrich}
use backstop_core.Gate.Baseline.{index_by_hash, has_hash}

module _ (hash_string : String → String) where
  -- A finding of the list has the hash.
  abbrev pub Known : String → List Violation → Type 0
  Known h vs = (v : Violation) × In v vs × ((enrich hash_string v).identity_hash ≡ h)

  has_hash-put :
      (k h : String) (e : Violation) (m : List (String × Violation))
      → has_hash hash_string h (put k e m) ≡ (k == h || has_hash hash_string h m)
  unfolding has_hash
  has_hash-put k h e m = ground (arith, lookup-put k h e m)

  pub Known-index :
      (h : String) (vs : List Violation) (m : List (String × Violation))
      → has_hash hash_string h (index_by_hash hash_string vs m) ≡ true
      → Known h vs ⊎ (has_hash hash_string h m ≡ true)
  unfolding index_by_hash
  Known-index h [] m e = inr e
  Known-index h (v ∷ vs) m e =
      let ev = enrich hash_string v in
      elim (Known-index h vs (put ev.identity_hash ev m) e) [
        | inl (w, i, q) ↦ inl (w, inr i, q)
        | inr p ↦ elim (Bool-cases (ev.identity_hash == h)) [
          | inl same ↦ inl (v, inl refl, (eq_iff ev.identity_hash h).0 same)
          | inr other ↦ inr (ground (arith, has_hash-put ev.identity_hash h ev m))
        ]
      ]

  index-keeps :
      (h : String) (vs : List Violation) (m : List (String × Violation))
      → has_hash hash_string h m ≡ true
      → has_hash hash_string h (index_by_hash hash_string vs m) ≡ true
  unfolding index_by_hash
  index-keeps h [] m e = e
  index-keeps h (v ∷ vs) m e =
      let ev = enrich hash_string v in
      index-keeps h vs (put ev.identity_hash ev m)
        (ground (arith, has_hash-put ev.identity_hash h ev m))

  pub index-Known :
      (h : String) (vs : List Violation) (m : List (String × Violation))
      → Known h vs
      → has_hash hash_string h (index_by_hash hash_string vs m) ≡ true
  unfolding index_by_hash
  index-Known h [] m (w, i, q) = absurd i
  index-Known h (v ∷ vs) m (w, inr i, q) =
      let ev = enrich hash_string v in index-Known h vs (put ev.identity_hash ev m) (w, i, q)
  index-Known h (v ∷ vs) m (w, inl i, q) =
      let ev = enrich hash_string v in
      let same =
        (eq_iff ev.identity_hash h).1 (ap (λ x. (enrich hash_string x).identity_hash) i ∙ q) in
      index-keeps h vs (put ev.identity_hash ev m)
        (has_hash-put ev.identity_hash h ev m ∙ ap (λ t. t || has_hash hash_string h m) same)
