-- ===== src/Text.antt =====
-- What the source uses of Go's `strings`, on the native texts.
pub mod Numbers
pub mod Split
use backstop_core.Prelude.{
  ℕ, ◌+◌, String, Char, code, Bool, true, false, ◌&&◌, ◌||◌, leb, eqb, if◌then◌else◌,
}

-- `unicode.IsSpace`
unfoldable pub is_space : ℕ → Bool
is_space c =
    (leb 9 c && leb c 13)
    || eqb c 32
    || eqb c 0x85
    || eqb c 0xa0
    || eqb c 0x1680
    || (leb 0x2000 c && leb c 0x200a)
    || eqb c 0x2028
    || eqb c 0x2029
    || eqb c 0x202f
    || eqb c 0x205f
    || eqb c 0x3000

pub trim_left : String → String
trim_left String.[] = String.[]
trim_left (String.◌∷◌ c s) = if is_space (code c) then trim_left s else String.◌∷◌ c s

abbrev pub put_back : Char → String → String
put_back c String.[] = if is_space (code c) then String.[] else String.◌∷◌ c String.[]
put_back c (String.◌∷◌ d r) = String.◌∷◌ c (String.◌∷◌ d r)

pub trim_right : String → String
trim_right String.[] = String.[]
trim_right (String.◌∷◌ c s) = put_back c (trim_right s)

-- `strings.TrimSpace`
unfoldable pub trim_space : String → String
unfolding trim_left trim_right is_space
trim_space s = trim_right (trim_left s)

-- Letters in lower case. The source folds case only against ASCII letters, none of which a letter
-- outside ASCII folds to but `k` and `s`, and it compares with neither.
unfoldable pub lower : ℕ → ℕ
lower c = if leb 65 c && leb c 90 then c + 32 else c

-- `strings.EqualFold`
unfoldable pub equal_fold : String → String → Bool
unfolding lower
equal_fold String.[] String.[] = true
equal_fold (String.◌∷◌ c s) (String.◌∷◌ d t) =
    eqb (lower (code c)) (lower (code d)) && equal_fold s t
equal_fold _ _ = false
