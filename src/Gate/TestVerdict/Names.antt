-- ===== src/Gate/TestVerdict/Names.antt =====
-- What it means that a message names a test.
use Prim.Native.String.{String, ◌++◌}
use Prim.Native.String.append
use text.Mathlib.TextEquality.{Char-path}
use mathlib.Core.Option.{some-injective}
use backstop_core.Prelude.{
  code, Bool, true, false, not, ◌&&◌, Option, none, some, eqb, eqb_iff, ◌==◌, ◌≡◌, refl, sym, ap,
  ◌∙◌, ◌↔◌, inl, inr, arith, and-eq_true, Bool-cases, if_true, if_false,
}
use backstop_core.Gate.TestVerdict.{
  is_identifier_byte, after_name, ends_identifier, named_here, names_from, verdict_names_test,
}

-- The text ends outside an identifier; `b` says whether the empty text does.
unfoldable pub ends_outside : Bool → String → Bool
unfolding is_identifier_byte
ends_outside b String.[] = b
ends_outside b (String.◌∷◌ c s) = ends_outside (not (is_identifier_byte (code c))) s

-- The name stands in the text as a whole identifier: what stands in front of it ends, and what
-- stands behind it begins, outside an identifier.
pub record Names (b : Bool) (text name : String) : Type 0 where
  pub front : String
  pub back : String
  pub split_there : text ≡ front ++ (name ++ back)
  pub starts : ends_outside b front ≡ true
  pub ends : ends_identifier back ≡ true

after_name_sound : (s t r : String) → after_name s t ≡ some r → s ≡ t ++ r
unfolding after_name
after_name_sound s String.[] r e = some-injective s r e ∙ sym (append.nil r)
after_name_sound String.[] (String.◌∷◌ d t) r e = absurd (cc)
after_name_sound (String.◌∷◌ c s) (String.◌∷◌ d t) r e = elim (Bool-cases (eqb (code c) (code d))) [
  | inr other ↦ absurd (cc)
  | inl same ↦
      let chars = Char-path c d ((eqb_iff (code c) (code d)).0 same) in
      let rest = after_name_sound s t r (sym (if_true _ none same) ∙ e) in
      (λ i. String.◌∷◌ (chars i) (rest i)) ∙ sym (append.cons d t r)
]

after_name_complete : (t r : String) → after_name (t ++ r) t ≡ some r
unfolding after_name
after_name_complete String.[] r = ap some (append.nil r)
after_name_complete (String.◌∷◌ d t) r =
    ap (λ s. after_name s (String.◌∷◌ d t)) (append.cons d t r)
    ∙ if_true _ none ((eqb_iff (code d) (code d)).1 refl)
    ∙ after_name_complete t r

named_here-Names :
    (b : Bool) (s name : String) (o : Option String)
    → after_name s name ≡ o
    → named_here b o ≡ true
    → Names b s name
unfolding ends_outside
named_here-Names b s name none e h = absurd (cc)
named_here-Names b s name (some r) e h =
    let (before, after) = and-eq_true b (ends_identifier r) h in
    record {
      front = "";
      back = r;
      split_there = after_name_sound s name r e ∙ sym (append.nil (name ++ r));
      starts = before;
      ends = after;
    }

names_from-Names : (b : Bool) (s name : String) → names_from b s name ≡ true → Names b s name
unfolding names_from ends_outside
names_from-Names b String.[] name h =
    named_here-Names b String.[] name (after_name String.[] name) refl h
names_from-Names b (String.◌∷◌ c s) name h =
    elim (Bool-cases (named_here b (after_name (String.◌∷◌ c s) name))) [
      | inl here ↦
          named_here-Names b (String.◌∷◌ c s) name (after_name (String.◌∷◌ c s) name) refl here
      | inr not_here ↦
          let later = names_from-Names (not (is_identifier_byte (code c))) s name (ground arith) in
          record {
            front = String.◌∷◌ c later.front;
            back = later.back;
            split_there =
                ap (String.◌∷◌ c) later.split_there
                ∙ sym (append.cons c later.front (name ++ later.back));
            starts = later.starts;
            ends = later.ends;
          }
    ]

names_from-here :
    (b : Bool) (s name : String)
    → named_here b (after_name s name) ≡ true
    → names_from b s name ≡ true
unfolding names_from
names_from-here b String.[] name h = h
names_from-here b (String.◌∷◌ c s) name h = ground arith

Names-names_from :
    (b : Bool) (front back name : String)
    → ends_outside b front ≡ true
    → ends_identifier back ≡ true
    → names_from b (front ++ (name ++ back)) name ≡ true
unfolding names_from ends_outside
Names-names_from b String.[] back name p q =
    ap (λ s. names_from b s name) (append.nil (name ++ back))
    ∙ names_from-here b (name ++ back) name (
        ap (named_here b) (after_name_complete name back)
        ∙ ap (λ x. x && ends_identifier back) p
        ∙ q)
Names-names_from b (String.◌∷◌ c front) back name p q =
    let later = Names-names_from (not (is_identifier_byte (code c))) front back name p q in
    ap (λ s. names_from b s name) (append.cons c front (name ++ back)) ∙ ground (arith, later)

-- A message names a test exactly when the test's name is not empty and stands somewhere in the
-- message with no letter, digit or underscore directly in front of it or behind it.
pub verdict_names_test-Names :
    (message name : String)
    → (verdict_names_test message name ≡ true) ↔ (((name == "") ≡ false) × Names true message name)
unfolding verdict_names_test
verdict_names_test-Names message name = (
  λ h. elim (Bool-cases (name == "")) [
    | inl e ↦ absurd (ground arith)
    | inr e ↦ (e, names_from-Names true message name (sym (if_false _ _ e) ∙ h))
  ],
  λ h.
      let (e, n) = h in
      if_false _ _ e
      ∙ ap (λ s. names_from true s name) n.split_there
      ∙ Names-names_from true n.front n.back name n.starts n.ends,
)
