-- ===== src/Distribution/Versions/RoundTrip.antt =====
-- A version that is written out is read back.
use Prim.Native.String.{◌++◌}
use Prim.Native.String.append
use backstop_core.Prelude.{
  ℕ, zero, suc, ◌+◌, ◌/◌, ◌%◌, ◌*◌, ◌-◌, ◌≤◌, String, Char, code, true, false, ◌&&◌, not, [], ◌∷◌,
  none, some, ◌≡◌, refl, sym, ap, ◌∙◌, arith, ◌==◌, eq_iff, ltb, leb, eqb, Bool-cases, inl, inr,
  if_true, if_false,
}
use backstop_core.Text.Numbers.{digit, show_digits, itoa}
use backstop_core.Text.Numbers.Injective.{value, value-itoa}
use backstop_core.Text.Split.{split, cons_head}
use backstop_core.Waiver.Token.{all_digits}
use backstop_core.Distribution.Versions.{
  Version, show_version, parse_version, parse_parts, component, decimal, trim_v, int_max,
  version_of,
}

decimal-value : (acc : ℕ) (s : String) → decimal acc s ≡ value acc s
unfolding decimal value
decimal-value acc String.[] = refl
decimal-value acc (String.◌∷◌ c s) = decimal-value (acc * 10 + (code c - 48)) s

all_digits-append :
    (s t : String) → all_digits s ≡ true → all_digits t ≡ true → all_digits (s ++ t) ≡ true
unfolding all_digits
all_digits-append String.[] t h k = ap all_digits (append.nil t) ∙ k
all_digits-append (String.◌∷◌ c s) t h k =
    ap all_digits (append.cons c s t) ∙ ground (arith, all_digits-append s t)

all_digits-digit : (d : ℕ) → all_digits (digit d) ≡ true
unfolding all_digits digit
all_digits-digit zero = refl
all_digits-digit (suc zero) = refl
all_digits-digit (suc (suc zero)) = refl
all_digits-digit (suc (suc (suc zero))) = refl
all_digits-digit (suc (suc (suc (suc zero)))) = refl
all_digits-digit (suc (suc (suc (suc (suc zero))))) = refl
all_digits-digit (suc (suc (suc (suc (suc (suc zero)))))) = refl
all_digits-digit (suc (suc (suc (suc (suc (suc (suc zero))))))) = refl
all_digits-digit (suc (suc (suc (suc (suc (suc (suc (suc zero)))))))) = refl
all_digits-digit (suc (suc (suc (suc (suc (suc (suc (suc (suc d))))))))) = refl

all_digits-show_digits : (fuel n : ℕ) → all_digits (show_digits fuel n) ≡ true
unfolding show_digits
all_digits-show_digits zero n = unfold all_digits in refl
all_digits-show_digits (suc fuel) n = elim (Bool-cases (ltb n 10)) [
  | inl e ↦ rw e (all_digits-digit n)
  | inr e ↦ rw e (
      all_digits-append (show_digits fuel (n / 10)) (digit (n % 10))
        (all_digits-show_digits fuel (n / 10)) (all_digits-digit (n % 10)))
]

all_digits-itoa : (n : ℕ) → all_digits (itoa n) ≡ true
unfolding itoa
all_digits-itoa n = all_digits-show_digits (n + 1) n

itoa-ne-empty : (n : ℕ) → (itoa n == "") ≡ false
unfolding value
itoa-ne-empty n = elim (Bool-cases (itoa n == "")) [
  | inr e ↦ e
  | inl e ↦
      let empty = (eq_iff (itoa n) "").0 e in
      let none_left = sym (value-itoa n) ∙ ap (value 0) empty in
      absurd (no_digits (ap itoa (sym (none_left)) ∙ empty))
]
  where
    no_digits : itoa 0 ≡ "" → ⊥
    no_digits e =
        let differs : (itoa 0 == "") ≡ false = unfold itoa in refl in
        absurd (cc (differs, (eq_iff (itoa 0) "").1 e))

-- A digit is no dot and no `v`.
all_digits-head :
    (c : Char) (s : String)
    → all_digits (String.◌∷◌ c s) ≡ true
    → (eqb (code c) b'.' ≡ false) × (eqb (code c) b'v' ≡ false) × (all_digits s ≡ true)
unfolding all_digits
all_digits-head c s h = ground arith

-- Digits in front of a dot are the first part.
split-digits :
    (s t : String) → all_digits s ≡ true → split b'.' (s ++ String.◌∷◌ "." t) ≡ s ∷ split b'.' t
unfolding split
split-digits String.[] t h = ap (split b'.') (append.nil (String.◌∷◌ "." t))
split-digits (String.◌∷◌ c s) t h =
    let (dot, _, rest) = all_digits-head c s h in
    ap (split b'.') (append.cons c s _)
    ∙ if_false _ _ dot
    ∙ ap (cons_head c) (split-digits s t rest)

split-last : (s : String) → all_digits s ≡ true → split b'.' s ≡ s ∷ []
unfolding split
split-last String.[] h = refl
split-last (String.◌∷◌ c s) h =
    let (dot, _, rest) = all_digits-head c s h in
    if_false _ _ dot ∙ ap (cons_head c) (split-last s rest)

trim_v-digits : (s t : String) → all_digits s ≡ true → (s == "") ≡ false → trim_v (s ++ t) ≡ s ++ t
unfolding trim_v
trim_v-digits String.[] t h e = absurd (cc)
trim_v-digits (String.◌∷◌ c s) t h e =
    ap trim_v (append.cons c s t)
    ∙ if_false _ _ ((all_digits-head c s h).1)
    ∙ sym (append.cons c s t)

component-itoa : (n : ℕ) → n ≤ int_max → component (itoa n) ≡ some n
unfolding component
component-itoa n h =
    let same = decimal-value 0 (itoa n) ∙ value-itoa n in
    if_true {b = not (itoa n == "") && all_digits (itoa n)} _ none
      (ground (arith, itoa-ne-empty n, all_digits-itoa n))
    ∙ if_true {b = leb (decimal 0 (itoa n)) int_max} _ none (ground (arith, same))
    ∙ ap some same

append-empty : (s : String) → s ++ "" ≡ s
append-empty String.[] = append.nil ""
append-empty (String.◌∷◌ c s) = append.cons c s "" ∙ ap (String.◌∷◌ c) (append-empty s)

dot-append : (t : String) → "." ++ t ≡ String.◌∷◌ "." t
dot-append t = append.cons "." "" t ∙ ap (String.◌∷◌ ".") (append.nil t)

-- The text of a version, as digits in front of dots.
abbrev dotted : String → String → String → String
dotted a b c = a ++ String.◌∷◌ "." (b ++ String.◌∷◌ "." c)

show_version-dotted :
    (v : Version) → show_version v ≡ dotted (itoa v.major) (itoa v.minor) (itoa v.patch)
unfolding show_version
show_version-dotted v =
    ap (λ t. itoa v.major ++ t)
      (dot-append _
        ∙ ap (λ t. String.◌∷◌ "." (itoa v.minor ++ t))
            (dot-append _ ∙ ap (String.◌∷◌ ".") (append-empty (itoa v.patch))))

split-dotted :
    (a b c : String)
    → all_digits a ≡ true
    → all_digits b ≡ true
    → all_digits c ≡ true
    → split b'.' (dotted a b c) ≡ a ∷ b ∷ c ∷ []
split-dotted a b c ha hb hc =
    split-digits a (b ++ String.◌∷◌ "." c) ha
    ∙ ap (λ x. a ∷ x) (split-digits b c hb ∙ ap (λ x. b ∷ x) (split-last c hc))

-- A version whose components an `int` holds is read back from its text.
pub parse_version-show_version :
    (v : Version)
    → v.major ≤ int_max
    → v.minor ≤ int_max
    → v.patch ≤ int_max
    → parse_version (show_version v) ≡ some v
unfolding parse_version
parse_version-show_version v a b c =
    ap parse_version (show_version-dotted v)
    ∙ ap (λ t. parse_parts (split b'.' t))
        (trim_v-digits (itoa v.major) _ (all_digits-itoa v.major) (itoa-ne-empty v.major))
    ∙ ap parse_parts (
        split-dotted (itoa v.major) (itoa v.minor) (itoa v.patch) (all_digits-itoa v.major)
          (all_digits-itoa v.minor) (all_digits-itoa v.patch))
    ∙ ap (λ x. version_of x (component (itoa v.minor)) (component (itoa v.patch)))
        (component-itoa v.major a)
    ∙ ap (λ x. version_of (some v.major) x (component (itoa v.patch))) (component-itoa v.minor b)
    ∙ ap (λ x. version_of (some v.major) (some v.minor) x) (component-itoa v.patch c)
