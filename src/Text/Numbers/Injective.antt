-- ===== src/Text/Numbers/Injective.antt =====
-- A number is read back from its digits, and its digits have no separator in them, so texts that are
-- joined of a name and numbers determine their parts.
use Prim.Native.String.{String, ◌++◌}
use Prim.Native.String.append
use Prim.Native.Char.{Char}
use backstop_core.Prelude.{
  ℕ, zero, suc, ◌+◌, ◌-◌, ◌*◌, ◌/◌, ◌%◌, ◌<◌, code, Bool, true, false, ◌||◌, ◌≡◌, refl, ◌∙◌, sym,
  ap, arith, eqb, ltb, if◌then◌else◌, Bool-cases, inl, inr, ltb→lt, if_true, if_false,
}
use backstop_core.Text.Numbers.{digit, show_digits, itoa}

unfoldable pub value : ℕ → String → ℕ
value acc String.[] = acc
value acc (String.◌∷◌ c s) = value (acc * 10 + (code c - 48)) s

value-append : (acc : ℕ) (s t : String) → value acc (s ++ t) ≡ value (value acc s) t
unfolding value
value-append acc String.[] t = ap (value acc) (append.nil t)
value-append acc (String.◌∷◌ c s) t =
    ap (value acc) (append.cons c s t) ∙ value-append (acc * 10 + (code c - 48)) s t

value-digit : (acc d : ℕ) → d < 10 → value acc (digit d) ≡ acc * 10 + d
unfolding value digit
value-digit acc zero h = refl
value-digit acc (suc zero) h = refl
value-digit acc (suc (suc zero)) h = refl
value-digit acc (suc (suc (suc zero))) h = refl
value-digit acc (suc (suc (suc (suc zero)))) h = refl
value-digit acc (suc (suc (suc (suc (suc zero))))) h = refl
value-digit acc (suc (suc (suc (suc (suc (suc zero)))))) h = refl
value-digit acc (suc (suc (suc (suc (suc (suc (suc zero))))))) h = refl
value-digit acc (suc (suc (suc (suc (suc (suc (suc (suc zero)))))))) h = refl
value-digit acc (suc (suc (suc (suc (suc (suc (suc (suc (suc zero))))))))) h = refl
value-digit acc (suc (suc (suc (suc (suc (suc (suc (suc (suc (suc d)))))))))) h =
    absurd (omega arith)

value-show_digits : (fuel n : ℕ) → n < fuel → value 0 (show_digits fuel n) ≡ n
unfolding show_digits
value-show_digits zero n h = absurd (omega arith)
value-show_digits (suc fuel) n h = elim (Bool-cases (ltb n 10)) [
  | inl e ↦ rw e (value-digit 0 n (ltb→lt n 10 e) ∙ omega arith)
  | inr e ↦ rw e (
      value-append 0 (show_digits fuel (n / 10)) (digit (n % 10))
      ∙ value-digit (value 0 (show_digits fuel (n / 10))) (n % 10) (omega arith)
      ∙ omega (arith, value-show_digits fuel (n / 10) (ground arith)))
]

pub value-itoa : (n : ℕ) → value 0 (itoa n) ≡ n
unfolding itoa
value-itoa n = value-show_digits (n + 1) n (omega arith)

pub itoa_injective : (m n : ℕ) → itoa m ≡ itoa n → m ≡ n
itoa_injective m n e = sym (value-itoa m) ∙ ap (value 0) e ∙ value-itoa n

-- Whether a text has a separator, and its parts around the last one.
pub has : ℕ → String → Bool
has sep String.[] = false
has sep (String.◌∷◌ c s) = eqb (code c) sep || has sep s

behind_last : ℕ → String → String
unfolding has
behind_last sep String.[] = ""
behind_last sep (String.◌∷◌ c s) = let r = behind_last sep s in if has sep s then r else s

before_last : ℕ → String → String
unfolding has
before_last sep String.[] = ""
before_last sep (String.◌∷◌ c s) =
    let r = before_last sep s in if has sep s then String.◌∷◌ c r else ""

module _ (sep : ℕ) (c : Char) (is_sep : code c ≡ sep) where
  abbrev joined : String → String → String
  joined a d = a ++ String.◌∷◌ c d

  has-joined : (a d : String) → has sep (joined a d) ≡ true
  unfolding has
  has-joined String.[] d = rw append.nil (ground arith)
  has-joined (String.◌∷◌ x a) d = rw append.cons (ground (arith, has-joined a d))

  behind_last-joined : (a d : String) → has sep d ≡ false → behind_last sep (joined a d) ≡ d
  unfolding behind_last
  behind_last-joined String.[] d h = ap (behind_last sep) (append.nil _) ∙ if_false _ _ h
  behind_last-joined (String.◌∷◌ x a) d h =
      ap (behind_last sep) (append.cons x a _)
      ∙ if_true _ _ (has-joined a d)
      ∙ behind_last-joined a d h

  before_last-joined : (a d : String) → has sep d ≡ false → before_last sep (joined a d) ≡ a
  unfolding before_last
  before_last-joined String.[] d h = ap (before_last sep) (append.nil _) ∙ if_false _ _ h
  before_last-joined (String.◌∷◌ x a) d h =
      ap (before_last sep) (append.cons x a _)
      ∙ if_true _ _ (has-joined a d)
      ∙ ap (String.◌∷◌ x) (before_last-joined a d h)

  -- Texts with no separator in them behind a last separator are read back.
  pub joined_injective :
      (a b d e : String)
      → has sep d ≡ false
      → has sep e ≡ false
      → joined a d ≡ joined b e
      → (a ≡ b) × (d ≡ e)
  joined_injective a b d e hd he q = (
    sym (before_last-joined a d hd) ∙ ap (before_last sep) q ∙ before_last-joined b e he,
    sym (behind_last-joined a d hd) ∙ ap (behind_last sep) q ∙ behind_last-joined b e he,
  )

has-append : (sep : ℕ) (s t : String) → has sep (s ++ t) ≡ (has sep s || has sep t)
unfolding has
has-append sep String.[] t = ap (has sep) (append.nil t)
has-append sep (String.◌∷◌ c s) t = rw append.cons (ground (arith, has-append sep s t))

colon-digit : (d : ℕ) → has b':' (digit d) ≡ false
unfolding has digit
colon-digit zero = refl
colon-digit (suc zero) = refl
colon-digit (suc (suc zero)) = refl
colon-digit (suc (suc (suc zero))) = refl
colon-digit (suc (suc (suc (suc zero)))) = refl
colon-digit (suc (suc (suc (suc (suc zero))))) = refl
colon-digit (suc (suc (suc (suc (suc (suc zero)))))) = refl
colon-digit (suc (suc (suc (suc (suc (suc (suc zero))))))) = refl
colon-digit (suc (suc (suc (suc (suc (suc (suc (suc zero)))))))) = refl
colon-digit (suc (suc (suc (suc (suc (suc (suc (suc (suc d))))))))) = refl

colon-show_digits : (fuel n : ℕ) → has b':' (show_digits fuel n) ≡ false
unfolding show_digits
colon-show_digits zero n = unfold has in refl
colon-show_digits (suc fuel) n = elim (Bool-cases (ltb n 10)) [
  | inl e ↦ rw e (colon-digit n)
  | inr e ↦ rw e (
      has-append b':' (show_digits fuel (n / 10)) (digit (n % 10))
      ∙ ground (arith, colon-show_digits fuel (n / 10), colon-digit (n % 10)))
]

pub colon-itoa : (n : ℕ) → has b':' (itoa n) ≡ false
unfolding itoa
colon-itoa n = colon-show_digits (n + 1) n
