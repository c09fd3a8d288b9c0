-- ===== src/Distribution/Install/Names.antt =====
-- How often a name stands in the list that a run goes through.
use backstop_core.Prelude.{
  ℕ, suc, String, List, [], ◌∷◌, none, ◌≡◌, ◌≢◌, refl, ◌∙◌, arith, ◌==◌, eq_iff, if◌then◌else◌,
  lookup, map,
}
use backstop_core.Text.Split.{sort_insert, sort_strings}
use backstop_core.Distribution.Tree.Copy.{Unique}
use backstop_core.Distribution.Install.{names_of}

abbrev pub count : String → List String → ℕ
count n [] = 0
count n (x ∷ xs) = let rest = count n xs in if x == n then suc rest else rest

count-sort_insert :
    (n s : String) (ts : List String) → count n (sort_insert s ts) ≡ count n (s ∷ ts)
unfolding sort_insert
count-sort_insert n s [] = refl
count-sort_insert n s (t ∷ ts) = ground (arith, count-sort_insert n s ts)

count-sort_strings : (n : String) (ts : List String) → count n (sort_strings ts) ≡ count n ts
unfolding sort_strings
count-sort_strings n [] = refl
count-sort_strings n (t ∷ ts) =
    count-sort_insert n t (sort_strings ts) ∙ ground (arith, count-sort_strings n ts)

count_of_absent :
    (n : String) (m : List (String × String)) → lookup n m ≡ none → count n (map (λ e. e.0) m) ≡ 0
unfolding lookup
count_of_absent n [] h = refl
count_of_absent n ((j, v) ∷ m) h = ground (arith, count_of_absent n m)

count_of_present :
    (n : String) (m : List (String × String))
    → Unique m
    → lookup n m ≢ none
    → count n (map (λ e. e.0) m) ≡ 1
unfolding lookup
count_of_present n [] u h = absurd (h refl)
count_of_present n ((j, v) ∷ m) (a, u) h =
    ground (arith, eq_iff j n, count_of_absent j m, count_of_absent n m, count_of_present n m u)

-- A run goes through a declared name once.
pub count-names_of :
    (n : String) (m : List (String × String))
    → Unique m
    → lookup n m ≢ none
    → count n (names_of m) ≡ 1
count-names_of n m u h = count-sort_strings n (map (λ e. e.0) m) ∙ count_of_present n m u h
