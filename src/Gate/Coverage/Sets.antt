-- ===== src/Gate/Coverage/Sets.antt =====
-- Sets, sorted lists and lists of findings keep their items.
use backstop_core.Prelude.{
  String, Bool, true, false, List, [], ◌∷◌, ◌++◌, ◌≡◌, refl, arith, inl, inr, In, Bool-cases, any,
  member, ◌==◌, eq_iff,
}
use Prim.Native.String.{compare}
use text.Mathlib.Text.{is_le}
use backstop_core.Text.Split.{sort_insert, sort_strings}
use backstop_core.Gate.Violation.{Violation}
use backstop_core.Gate.Coverage.{add_to_set}

member-In : (x : String) (xs : List String) → member x xs ≡ true → In x xs
unfolding member
member-In x [] h = absurd (cc)
member-In x (y ∷ xs) h = elim (Bool-cases (y == x)) [
  | inl e ↦ inl ((eq_iff y x).0 e)
  | inr e ↦ inr (member-In x xs (ground arith))
]

pub In-add_to_set : (x : String) (xs : List String) → In x (add_to_set x xs)
In-add_to_set x xs = elim (Bool-cases (member x xs)) [
  | inl e ↦ rw e (member-In x xs e)
  | inr e ↦ rw e (inl refl)
]

pub add_to_set-In : (y x : String) (xs : List String) → In y xs → In y (add_to_set x xs)
add_to_set-In y x xs i = elim (Bool-cases (member x xs)) [ inl e ↦ rw e i | inr e ↦ rw e (inr i) ]

In-sort_insert : (y s : String) (ts : List String) → In y (s ∷ ts) → In y (sort_insert s ts)
unfolding sort_insert
In-sort_insert y s [] i = i
In-sort_insert y s (t ∷ ts) i = elim (Bool-cases (is_le (compare s t))) [
  | inl e ↦ rw e i
  | inr e ↦ rw e (elim i [
    | inl q ↦ inr (In-sort_insert y s ts (inl q))
    | inr j ↦ elim j [ inl q ↦ inl q | inr k ↦ inr (In-sort_insert y s ts (inr k)) ]
  ])
]

pub In-sort_strings : (y : String) (ts : List String) → In y ts → In y (sort_strings ts)
unfolding sort_strings
In-sort_strings y [] i = i
In-sort_strings y (t ∷ ts) (inl e) = In-sort_insert y t (sort_strings ts) (inl e)
In-sort_strings y (t ∷ ts) (inr i) =
    In-sort_insert y t (sort_strings ts) (inr (In-sort_strings y ts i))

pub any_append :
    (p : Violation → Bool) (xs ys : List Violation)
    → any p (xs ++ ys) ≡ false
    → (any p xs ≡ false) × (any p ys ≡ false)
unfolding any
any_append p [] ys h = (refl, h)
any_append p (x ∷ xs) ys h = ground (arith, any_append p xs ys)
