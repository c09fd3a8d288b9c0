-- ===== src/Gate/Baseline/SelfCompare.antt =====
-- The comparison of findings with themselves.
use backstop_core.Prelude.{
  String, true, false, List, [], ◌∷◌, Option, none, some, ◌≡◌, refl, inl, inr, ap, arith, In,
  lookup, eq_refl,
}
use backstop_core.Gate.Violation.{Violation}
use backstop_core.Gate.Scope.{GateScope, filter_violations}
use backstop_core.Gate.Identity.{enrich}
use backstop_core.Gate.Baseline.{
  BaselineCompareOptions, grandfathered, judge, index_by_hash, has_hash, is_narrowed, is_fixed,
  scope_touches, collect_new, collect_seeded, collect_fixed, compare_baseline, no_comparison,
}
use backstop_core.Gate.Baseline.Index.{index-Known}

module _ (hash_string : String → String) (o : BaselineCompareOptions)
    (untouched : (file : String) → scope_touches o.scope file ≡ false) where
  judge-known :
      (base : List (String × Violation)) (v : Violation)
      → has_hash hash_string (enrich hash_string v).identity_hash base ≡ true
      → judge hash_string o base v ≡ grandfathered
  unfolding judge
  judge-known base v h = rw (h, untouched v.file) refl

  collect_new-known :
      (base : List (String × Violation)) (vs : List Violation)
      → ((v : Violation)
          → In v vs
          → has_hash hash_string (enrich hash_string v).identity_hash base ≡ true)
      → collect_new hash_string o base vs ≡ []
  unfolding collect_new
  collect_new-known base [] h = refl
  collect_new-known base (v ∷ vs) h =
      rw (judge-known base v (h v (inl refl))) (collect_new-known base vs (λ u i. h u (inr i)))

  collect_seeded-known :
      (base : List (String × Violation)) (vs : List Violation)
      → ((v : Violation)
          → In v vs
          → has_hash hash_string (enrich hash_string v).identity_hash base ≡ true)
      → collect_seeded hash_string o base vs ≡ []
  unfolding collect_seeded
  collect_seeded-known base [] h = refl
  collect_seeded-known base (v ∷ vs) h =
      rw (judge-known base v (h v (inl refl))) (collect_seeded-known base vs (λ u i. h u (inr i)))

  collect_fixed-known :
      (current m : List (String × Violation))
      → ((e : String × Violation) → In e m → has_hash hash_string e.0 current ≡ true)
      → collect_fixed hash_string o current m ≡ []
  unfolding collect_fixed is_fixed
  collect_fixed-known current [] h = refl
  collect_fixed-known current ((key, old) ∷ rest) h =
      rw (h (key, old) (inl refl)) (collect_fixed-known current rest (λ e i. h e (inr i)))

  own_key :
      (e : String × Violation) (m : List (String × Violation))
      → In e m
      → has_hash hash_string e.0 m ≡ true
  unfolding has_hash lookup
  own_key e [] i = absurd i
  own_key e ((k, v) ∷ m) (inl q) = ground (arith, eq_refl e.0, ap (λ x. x.0) q)
  own_key e ((k, v) ∷ m) (inr i) = ground (arith, own_key e m i)

untouched_whole :
    (sc : Option GateScope)
    → is_narrowed sc ≡ false
    → (file : String) → scope_touches sc file ≡ false
unfolding scope_touches
untouched_whole none h file = refl
untouched_whole (some s) h file = rw h refl

filter_whole :
    (sc : Option GateScope) (vs : List Violation)
    → is_narrowed sc ≡ false
    → filter_violations sc vs ≡ vs
unfolding filter_violations
filter_whole none vs h = refl
filter_whole (some s) vs h = ground arith

-- Compared with a baseline of the same findings, in no scope or the scope of all files, the
-- findings show nothing new, nothing fixed and nothing seeded, whatever the digest.
pub compare_baseline_self :
    (hash_string : String → String) (o : BaselineCompareOptions) (current : List Violation)
    → is_narrowed o.scope ≡ false
    → compare_baseline hash_string current (some (record { violations = current })) o
      ≡ no_comparison hash_string
unfolding compare_baseline
compare_baseline_self hash_string o current whole =
    let base = index_by_hash hash_string current [] in
    let free = untouched_whole o.scope whole in
    let known : (v : Violation)
        → In v current
        → has_hash hash_string (enrich hash_string v).identity_hash base ≡ true =
      λ v i. index-Known hash_string (enrich hash_string v).identity_hash current [] (v, i, refl) in
    rw
      (
        filter_whole o.scope current whole,
        collect_new-known hash_string o free base current known,
        collect_seeded-known hash_string o free base current known,
        collect_fixed-known hash_string o free base base
            (λ e i. own_key hash_string o free e base i),
      )
      refl
