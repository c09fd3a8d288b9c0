-- ===== src/Gate/Baseline/Ratchet.antt =====
-- Which findings count as new.
use backstop_core.Prelude.{
  String, true, false, List, [], ◌∷◌, some, ◌==◌, ◌≡◌, refl, ◌⊎◌, inl, inr, arith, In, keep-In, ◌∙◌,
  sym, ap, subst, keep, if_false,
}
use backstop_core.Gate.Violation.{Violation}
use backstop_core.Gate.Scope.{GateScope, is_all, scope_contains, in_scope, filter_violations}
use backstop_core.Gate.Identity.{enrich}
use backstop_core.Gate.Baseline.{
  BaselineArtifact, BaselineCompareOptions, Verdict, BaselineComparison, add_to_new, add_to_seeded,
  grandfathered, seeded, net_new, judge, index_by_hash, has_hash, scope_touches, collect_new,
  collect_seeded, compare_baseline,
}
use backstop_core.Gate.Baseline.Index.{Known, Known-index, index-Known}

Verdict-cases : (j : Verdict) → (j ≡ grandfathered) ⊎ ((j ≡ seeded) ⊎ (j ≡ net_new))
Verdict-cases grandfathered = inl refl
Verdict-cases seeded = inr (inl refl)
Verdict-cases net_new = inr (inr refl)

In-add_to_new :
    (j : Verdict) (a e : Violation) (vs : List Violation) → In a vs → In a (add_to_new j e vs)
In-add_to_new grandfathered a e vs i = i
In-add_to_new seeded a e vs i = i
In-add_to_new net_new a e vs i = inr i

In-add_to_seeded :
    (j : Verdict) (a e : Violation) (vs : List Violation) → In a vs → In a (add_to_seeded j e vs)
In-add_to_seeded grandfathered a e vs i = i
In-add_to_seeded seeded a e vs i = inr i
In-add_to_seeded net_new a e vs i = i

add_to_new-In :
    (j : Verdict) (a e : Violation) (vs : List Violation)
    → In a (add_to_new j e vs)
    → ((j ≡ net_new) × (e ≡ a)) ⊎ In a vs
add_to_new-In grandfathered a e vs i = inr i
add_to_new-In seeded a e vs i = inr i
add_to_new-In net_new a e vs (inl q) = inl (refl, q)
add_to_new-In net_new a e vs (inr i) = inr i

module _ (hash_string : String → String) (o : BaselineCompareOptions)
    (base : List (String × Violation)) where
  collect_new-In :
      (v : Violation) (vs : List Violation)
      → In v vs
      → judge hash_string o base v ≡ net_new
      → In (enrich hash_string v) (collect_new hash_string o base vs)
  unfolding collect_new
  collect_new-In v [] i e = absurd i
  collect_new-In v (x ∷ vs) (inl q) e =
      rw (ap (judge hash_string o base) q ∙ e) (inl (ap (enrich hash_string) q))
  collect_new-In v (x ∷ vs) (inr i) e =
      In-add_to_new (judge hash_string o base x) (enrich hash_string v) (enrich hash_string x)
        (collect_new hash_string o base vs) (collect_new-In v vs i e)

  collect_seeded-In :
      (v : Violation) (vs : List Violation)
      → In v vs
      → judge hash_string o base v ≡ seeded
      → In (enrich hash_string v) (collect_seeded hash_string o base vs)
  unfolding collect_seeded
  collect_seeded-In v [] i e = absurd i
  collect_seeded-In v (x ∷ vs) (inl q) e =
      rw (ap (judge hash_string o base) q ∙ e) (inl (ap (enrich hash_string) q))
  collect_seeded-In v (x ∷ vs) (inr i) e =
      In-add_to_seeded (judge hash_string o base x) (enrich hash_string v) (enrich hash_string x)
        (collect_seeded hash_string o base vs) (collect_seeded-In v vs i e)

  In-collect_new :
      (a : Violation) (vs : List Violation)
      → In a (collect_new hash_string o base vs)
      → (v : Violation) × In v vs
        × (enrich hash_string v ≡ a)
        × (judge hash_string o base v ≡ net_new)
  unfolding collect_new
  In-collect_new a [] i = absurd i
  In-collect_new a (x ∷ vs) i =
      elim (add_to_new-In (judge hash_string o base x) a (enrich hash_string x)
        (collect_new hash_string o base vs) i) [
          | inl (e, q) ↦ (x, inl refl, q, e)
          | inr r ↦ let (v, found, q, e) = In-collect_new a vs r in (v, inr found, q, e)
        ]

  judge-grandfathered :
      (v : Violation)
      → judge hash_string o base v ≡ grandfathered
      → (has_hash hash_string (enrich hash_string v).identity_hash base ≡ true)
        × (scope_touches o.scope v.file ≡ false)
  unfolding judge
  judge-grandfathered v h = ground arith

  judge-net_new :
      (v : Violation)
      → judge hash_string o base v ≡ net_new
      → has_hash hash_string (enrich hash_string v).identity_hash base ≡ true
      → scope_touches o.scope v.file ≡ true
  unfolding judge
  judge-net_new v h k = ground arith

judge_touched :
    (hash_string : String → String) (o : BaselineCompareOptions) (base : List (String × Violation))
    (s : GateScope) (v : Violation)
    → o.scope ≡ some s
    → is_all s.mode ≡ false
    → scope_contains (some s) v.file ≡ true
    → judge hash_string o base v ≡ net_new
unfolding judge
judge_touched hash_string o base s v e narrow inside = rw e (ground arith)

filter_narrowed :
    (s : GateScope) (vs : List Violation)
    → is_all s.mode ≡ false
    → filter_violations (some s) vs ≡ keep (in_scope s) vs
unfolding filter_violations
filter_narrowed s vs narrow = if_false vs (keep (in_scope s) vs) narrow

in_scope_touched :
    (s : GateScope) (v : Violation)
    → (v.file == "") ≡ false
    → scope_contains (some s) v.file ≡ true
    → in_scope s v ≡ true
in_scope_touched s v named inside = ground arith

module _ (hash_string : String → String) (o : BaselineCompareOptions) (b : BaselineArtifact)
    (current : List Violation) where
  abbrev considered : List Violation
  considered = filter_violations o.scope current

  abbrev outcome : BaselineComparison
  outcome = compare_baseline hash_string current (some b) o

  -- No finding that the scope lets through is lost: it is new, or seeded, or else the baseline has
  -- a finding of the same hash and no explicit scope touches its file.
  pub compare_baseline_complete :
      (v : Violation)
      → In v considered
      → In (enrich hash_string v) outcome.new_violations
        ⊎ (In (enrich hash_string v) outcome.seeded_violations
            ⊎ (Known hash_string (enrich hash_string v).identity_hash b.violations
                × (scope_touches o.scope v.file ≡ false)))
  unfolding compare_baseline
  compare_baseline_complete v i =
      let base = index_by_hash hash_string b.violations [] in
      elim (Verdict-cases (judge hash_string o base v)) [
        | inr (inr e) ↦ inl (collect_new-In hash_string o base v considered i e)
        | inr (inl e) ↦ inr (inl (collect_seeded-In hash_string o base v considered i e))
        | inl e ↦
            let (known, untouched) = judge-grandfathered hash_string o base v e in
            inr (inr (known_of v known, untouched))
      ]
    where
      known_of :
          (v : Violation)
          → has_hash hash_string
              (enrich hash_string v).identity_hash
              (index_by_hash hash_string b.violations [])
            ≡ true
          → Known hash_string (enrich hash_string v).identity_hash b.violations
      known_of v h =
          elim (Known-index hash_string (enrich hash_string v).identity_hash b.violations [] h) [
            | inl k ↦ k
            | inr bad ↦ absurd (cc)
          ]

  -- A finding that is reported as new is one that the scope lets through; if the baseline has a
  -- finding of its hash, then an explicit scope touches its file.
  pub compare_baseline_sound :
      (a : Violation)
      → In a outcome.new_violations
      → (v : Violation) × In v considered
        × (enrich hash_string v ≡ a)
        × (Known hash_string (enrich hash_string v).identity_hash b.violations
            → scope_touches o.scope v.file ≡ true)
  unfolding compare_baseline
  compare_baseline_sound a i =
      let base = index_by_hash hash_string b.violations [] in
      let (v, found, q, e) = In-collect_new hash_string o base a considered i in
      (
        v,
        found,
        q,
        λ known.
            judge-net_new hash_string o base v e
              (index-Known hash_string (enrich hash_string v).identity_hash b.violations [] known),
      )

  -- The ratchet on a touched file: in a diff or file scope each current finding with a file in the
  -- scope is reported as new, whatever the baseline holds.
  pub compare_baseline-touched :
      (s : GateScope) (v : Violation)
      → o.scope ≡ some s
      → is_all s.mode ≡ false
      → In v current
      → (v.file == "") ≡ false
      → scope_contains (some s) v.file ≡ true
      → In (enrich hash_string v) outcome.new_violations
  unfolding compare_baseline
  compare_baseline-touched s v e narrow i named inside =
      let base = index_by_hash hash_string b.violations [] in
      collect_new-In hash_string o base v considered
        (subst (λ sc. In v (filter_violations sc current)) (sym e)
          (subst (In v) (sym (filter_narrowed s current narrow))
            (keep-In (in_scope s) v current i (in_scope_touched s v named inside))))
        (judge_touched hash_string o base s v e narrow inside)
