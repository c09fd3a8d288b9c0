-- ===== src/Gate/Substantiveness/Evidence.antt =====
-- Which mandated tests the join reports, and when it refuses to.
use backstop_core.Prelude.{
  ℕ, String, Bool, true, false, not, ◌&&◌, ◌||◌, List, [], ◌∷◌, keep, any, member, length, ◌==◌,
  ◌≡◌, refl, ◌∙◌, ap, arith, eq_iff, ltb, if◌then◌else◌, Bool-cases, inl, inr,
}
use backstop_core.Gate.Violation.{Violation}
use backstop_core.Gate.StatusDrift.{MandatedTest}
use backstop_core.Gate.Substantiveness.{
  property, is_about, referenced_set, no_target_violation, no_target_for_test, is_raised,
  join_eligible, evidence_refusal, has_role, route_substantiveness_findings,
}

-- A finding that shows that the test calls its target.
abbrev pub evidences : MandatedTest → Violation → Bool
evidences mt v = is_about mt v && property "symbol" v == mt.target_pkg

member-if :
    (c : Bool) (t s : String) (rest : List String)
    → member t (if c then s ∷ rest else rest) ≡ ((c && s == t) || member t rest)
unfolding member
member-if true t s rest = refl
member-if false t s rest = refl

empty_apart : (a e m : Bool) → (m ≡ true → e ≡ false) → ((a && not e) && m) ≡ (a && m)
empty_apart false e m h = refl
empty_apart true false m h = refl
empty_apart true true false h = refl
empty_apart true true true h = absurd (true_differs (h refl))
  where
    true_differs : true ≡ false → ⊥
    true_differs q = absurd (cc)

named_apart : (s t : String) → (t == "") ≡ false → (s == t) ≡ true → (s == "") ≡ false
named_apart s t h e = ap (λ x. x == "") ((eq_iff s t).0 e) ∙ h

member-referenced_set :
    (mt : MandatedTest) (vs : List Violation)
    → (mt.target_pkg == "") ≡ false
    → member mt.target_pkg (referenced_set vs mt) ≡ any (evidences mt) vs
unfolding member referenced_set any
member-referenced_set mt [] h = refl
member-referenced_set mt (v ∷ vs) h =
    let s = property "symbol" v in
    let t = mt.target_pkg in
    member-if (is_about mt v && not (s == "")) t s (referenced_set vs mt)
    ∙ ap (λ b. b || member t (referenced_set vs mt))
        (empty_apart (is_about mt v) (s == "") (s == t) (named_apart s t h))
    ∙ ap (λ b. evidences mt v || b) (member-referenced_set mt vs h)

-- A mandated test is reported exactly when it is eligible for the join and no finding about it
-- names its target: an absence test, a test with no target and one in its target's own package are
-- never eligible.
pub no_target_for_test-raised :
    (mt : MandatedTest) (vs : List Violation) (same_package : Bool)
    → (is_raised (no_target_for_test mt (referenced_set vs mt) same_package)
        ≡ (join_eligible mt same_package && not (any (evidences mt) vs)))
      × (join_eligible mt same_package
          ≡ (not mt.is_absence && not (mt.target_pkg == "") && not same_package))
unfolding no_target_for_test join_eligible no_target_violation member
no_target_for_test-raised mt vs same_package = elim (Bool-cases (mt.target_pkg == "")) [
  | inl e ↦ (ground arith, ground arith)
  | inr e ↦ (ground (arith, member-referenced_set mt vs e), ground arith)
]

-- A mandated test with whether it stands in its target's package.
abbrev pub Placed : Type 0
Placed = MandatedTest × Bool

-- The number of the tests that are eligible for the join is that of these.
abbrev pub eligible_tests : List Placed → List Placed
eligible_tests ts = keep (λ t. join_eligible t.0 t.1) ts

-- A test with a target in another package than its own, and not of an absence.
abbrev pub has_target : Placed → Bool
has_target t = not t.0.is_absence && not (t.0.target_pkg == "") && not t.1

length-keep-any : {A : Type 0} (p : A → Bool) (xs : List A) → ltb 0 (length (keep p xs)) ≡ any p xs
unfolding keep any
length-keep-any p [] = refl
length-keep-any p (x ∷ xs) = elim (Bool-cases (p x)) [
  | inl e ↦ rw e (ground arith)
  | inr e ↦ rw e (length-keep-any p xs)
]

any_ext : {A : Type 0} (p q : A → Bool) (xs : List A) → ((x : A) → p x ≡ q x) → any p xs ≡ any q xs
unfolding any
any_ext p q [] h = refl
any_ext p q (x ∷ xs) h = ap (λ b. b || any p xs) (h x) ∙ ap (λ b. q x || b) (any_ext p q xs h)

refused-counts :
    (eligible extraction hollow : ℕ)
    → is_raised (evidence_refusal eligible extraction hollow)
      ≡ (ltb 0 eligible && not (ltb 0 hollow) && not (ltb 0 extraction))
unfolding evidence_refusal
refused-counts eligible extraction hollow = ground arith

-- The step refuses exactly when some mandated test has a target in another package than its own and
-- is not of an absence, while no finding has the hollow role and none the role of a referenced
-- symbol. The counts are those of the eligible tests and of the routed findings.
pub evidence_refusal-unfed :
    (vs : List Violation) (ts : List Placed)
    → let (hollow, extraction) = route_substantiveness_findings vs in
      is_raised (evidence_refusal (length (eligible_tests ts)) (length extraction) (length hollow))
      ≡ (any has_target ts
          && not (any (λ v. property "substantiveness_role" v == "hollow") vs)
          && not (any (λ v. property "substantiveness_role" v == "referenced-symbol") vs))
unfolding route_substantiveness_findings
evidence_refusal-unfed vs ts =
    let hollow = length (keep (has_role "hollow") vs) in
    let extraction = length (keep (has_role "referenced-symbol") vs) in
    refused-counts (length (eligible_tests ts)) extraction hollow
    ∙ ap (λ b. b && not (ltb 0 hollow) && not (ltb 0 extraction))
        (length-keep-any (λ (t : Placed). join_eligible t.0 t.1) ts
          ∙ any_ext (λ (t : Placed). join_eligible t.0 t.1) has_target ts
              (λ t. (no_target_for_test-raised t.0 [] t.1).1))
    ∙ ap (λ b. any has_target ts && not b && not (ltb 0 extraction))
        (length-keep-any (has_role "hollow") vs)
    ∙ ap (λ b. any has_target ts && not (any (has_role "hollow") vs) && not b)
        (length-keep-any (has_role "referenced-symbol") vs)
