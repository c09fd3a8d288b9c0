-- ===== src/Waiver/Adjudicate/Keys.antt =====
-- The keys by which tokens are told apart determine their file, line and column.
use Prim.Native.String.{String, ◌++◌}
use Prim.Native.String.append
use backstop_core.Prelude.{ℕ, ◌≡◌, refl, ◌∙◌, sym, ap}
use backstop_core.Text.Numbers.{concat, itoa}
use backstop_core.Text.Numbers.Injective.{joined_injective, itoa_injective, colon-itoa}
use backstop_core.Waiver.Adjudicate.{diag_key}

append_assoc : (s t u : String) → (s ++ t) ++ u ≡ s ++ (t ++ u)
append_assoc String.[] t u = ap (λ x. x ++ u) (append.nil t) ∙ sym (append.nil (t ++ u))
append_assoc (String.◌∷◌ c s) t u =
    ap (λ x. x ++ u) (append.cons c s t)
    ∙ append.cons c (s ++ t) u
    ∙ ap (String.◌∷◌ c) (append_assoc s t u)
    ∙ sym (append.cons c s (t ++ u))

append_empty : (s : String) → s ++ "" ≡ s
append_empty String.[] = append.nil ""
append_empty (String.◌∷◌ c s) = append.cons c s "" ∙ ap (String.◌∷◌ c) (append_empty s)

colon_front : (s : String) → ":" ++ s ≡ String.◌∷◌ ":" s
colon_front s = append.cons ":" "" s ∙ ap (String.◌∷◌ ":") (append.nil s)

-- The key with its two numbers behind separators.
diag_key-joined :
    (file : String) (line col : ℕ)
    → diag_key file line col ≡ (file ++ String.◌∷◌ ":" (itoa line)) ++ String.◌∷◌ ":" (itoa col)
unfolding diag_key concat
diag_key-joined file line col =
    ap (λ x. file ++ ":" ++ itoa line ++ ":" ++ x) (append_empty (itoa col))
    ∙ ap (λ x. file ++ ":" ++ itoa line ++ x) (colon_front (itoa col))
    ∙ ap (λ x. file ++ x) (colon_front (itoa line ++ String.◌∷◌ ":" (itoa col)))
    ∙ ap (λ x. file ++ x) (sym (append.cons ":" (itoa line) (String.◌∷◌ ":" (itoa col))))
    ∙ sym (append_assoc file (String.◌∷◌ ":" (itoa line)) (String.◌∷◌ ":" (itoa col)))

pub diag_key_injective :
    (file file' : String) (line line' col col' : ℕ)
    → diag_key file line col ≡ diag_key file' line' col'
    → (file ≡ file') × (line ≡ line') × (col ≡ col')
diag_key_injective file file' line line' col col' e =
    let (front, cols) =
      joined_injective b':' ":" refl (file ++ String.◌∷◌ ":" (itoa line))
        (file' ++ String.◌∷◌ ":" (itoa line')) (itoa col) (itoa col') (colon-itoa col)
        (colon-itoa col')
        (sym (diag_key-joined file line col) ∙ e ∙ diag_key-joined file' line' col') in
    let (files, lines) =
      joined_injective b':' ":" refl file file' (itoa line) (itoa line') (colon-itoa line)
        (colon-itoa line') front in
    (files, itoa_injective line line' lines, itoa_injective col col' cols)
