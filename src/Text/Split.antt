-- ===== src/Text/Split.antt =====
-- `strings.Split` at a single character, `strings.Join`, and the search of one text in another.
use Prim.Native.String.{String, ◌++◌, compare}
use text.Mathlib.Text.{is_le}
use Prim.Native.Char.{Char}
use backstop_core.Prelude.{
  ℕ, code, Bool, true, false, ◌&&◌, ◌||◌, List, [], ◌∷◌, eqb, if◌then◌else◌,
}

abbrev pub cons_head : Char → List String → List String
cons_head c [] = String.◌∷◌ c String.[] ∷ []
cons_head c (p ∷ ps) = String.◌∷◌ c p ∷ ps

-- `strings.Split(s, sep)`, `sep` one character: never the empty list.
unfoldable pub split : ℕ → String → List String
split sep String.[] = "" ∷ []
split sep (String.◌∷◌ c s) =
    let rest = split sep s in if eqb (code c) sep then "" ∷ rest else cons_head c rest

-- `strings.Join`
unfoldable pub join : String → List String → String
join sep [] = ""
join sep (s ∷ []) = s
join sep (s ∷ t ∷ ss) = s ++ sep ++ join sep (t ∷ ss)

-- `strings.HasPrefix`
unfoldable pub has_prefix : String → String → Bool
has_prefix s String.[] = true
has_prefix String.[] (String.◌∷◌ d t) = false
has_prefix (String.◌∷◌ c s) (String.◌∷◌ d t) = eqb (code c) (code d) && has_prefix s t

-- `strings.Contains`
unfoldable pub contains : String → String → Bool
unfolding has_prefix
contains String.[] t = has_prefix String.[] t
contains (String.◌∷◌ c s) t = has_prefix (String.◌∷◌ c s) t || contains s t

-- `sort.Strings`, by the order of the UTF-8 bytes.
unfoldable pub sort_insert : String → List String → List String
sort_insert s [] = s ∷ []
sort_insert s (t ∷ ts) = if is_le (compare s t) then s ∷ t ∷ ts else t ∷ sort_insert s ts

unfoldable pub sort_strings : List String → List String
unfolding sort_insert
sort_strings [] = []
sort_strings (s ∷ ss) = sort_insert s (sort_strings ss)
