-- ===== src/Waiver/Unbound/Exact.antt =====
-- Which tokens are reported as unbound.
use backstop_core.Prelude.{
  String, false, List, [], ◌∷◌, Option, none, some, ◌≡◌, refl, ◌∙◌, sym, ap, subst, In, inl, inr,
  member, is_empty, Bool-cases, if_false, ◌↔◌, ◌⊎◌,
}
use mathlib.Core.Option.{some-injective}
use backstop_core.Waiver.Token.{Waiver}
use backstop_core.Waiver.Adjudicate.{Diagnostic, unbound}
use backstop_core.Waiver.Unbound.{
  pack_name_of, unbound_named, unbound_of, add_found, unbound_all, unbound_tokens,
}

-- The diagnostic is the token's: its rule names a pack that is none of the namespaces.
pub record UnboundBy (namespaces : List String) (w : Waiver) (d : Diagnostic) : Type 0 where
  pub name : String
  pub named : pack_name_of w.rule_id ≡ some name
  pub unknown : member name namespaces ≡ false
  pub located :
      d ≡ record { rule_id = w.rule_id; file = w.file; line = w.line; kind = unbound name }

unbound_named-UnboundBy :
    (namespaces : List String) (w : Waiver) (o : Option String) (d : Diagnostic)
    → pack_name_of w.rule_id ≡ o
    → unbound_named namespaces w o ≡ some d
    → UnboundBy namespaces w d
unfolding unbound_named
unbound_named-UnboundBy namespaces w none d e h = absurd (cc)
unbound_named-UnboundBy namespaces w (some name) d e h =
    elim (Bool-cases (member name namespaces)) [
      | inl known ↦ absurd (cc)
      | inr unknown ↦ record {
        name = name;
        named = e;
        unknown = unknown;
        located = some-injective _ _ (sym h ∙ if_false _ _ unknown);
      }
    ]

UnboundBy-unbound_of :
    (namespaces : List String) (w : Waiver) (d : Diagnostic)
    → UnboundBy namespaces w d
    → unbound_of namespaces w ≡ some d
unfolding unbound_of unbound_named
UnboundBy-unbound_of namespaces w d u =
    ap (unbound_named namespaces w) u.named ∙ if_false _ _ u.unknown ∙ ap some (sym u.located)

add_found-In :
    (d : Diagnostic) (o : Option Diagnostic) (ds : List Diagnostic)
    → In d (add_found o ds)
    → (o ≡ some d) ⊎ In d ds
add_found-In d none ds i = inr i
add_found-In d (some x) ds (inl q) = inl (ap some q)
add_found-In d (some x) ds (inr i) = inr i

In-add_found :
    (d : Diagnostic) (o : Option Diagnostic) (ds : List Diagnostic)
    → In d ds
    → In d (add_found o ds)
In-add_found d none ds i = i
In-add_found d (some x) ds i = inr i

unbound_all_sound :
    (namespaces : List String) (ws : List Waiver) (d : Diagnostic)
    → In d (unbound_all ws namespaces)
    → (w : Waiver) × In w ws × UnboundBy namespaces w d
unfolding unbound_all unbound_of
unbound_all_sound namespaces [] d i = absurd i
unbound_all_sound namespaces (w ∷ ws) d i =
    elim (add_found-In d (unbound_of namespaces w) (unbound_all ws namespaces) i) [
      | inl e ↦
          (w, inl refl, unbound_named-UnboundBy namespaces w (pack_name_of w.rule_id) d refl e)
      | inr j ↦ let (x, k, u) = unbound_all_sound namespaces ws d j in (x, inr k, u)
    ]

unbound_all_complete :
    (namespaces : List String) (ws : List Waiver) (w : Waiver) (d : Diagnostic)
    → In w ws
    → UnboundBy namespaces w d
    → In d (unbound_all ws namespaces)
unfolding unbound_all
unbound_all_complete namespaces [] w d i u = absurd i
unbound_all_complete namespaces (x ∷ ws) w d (inl q) u =
    subst (λ o. In d (add_found o (unbound_all ws namespaces)))
      (sym (ap (unbound_of namespaces) q ∙ UnboundBy-unbound_of namespaces w d u)) (inl refl)
unbound_all_complete namespaces (x ∷ ws) w d (inr i) u =
    In-add_found d (unbound_of namespaces x) (unbound_all ws namespaces)
      (unbound_all_complete namespaces ws w d i u)

-- If some namespace is known, then what is reported is exactly a diagnostic for each token whose
-- rule names a pack that is none of the namespaces; a rule that names no pack is never reported.
pub unbound_tokens-UnboundBy :
    (namespaces : List String) (ws : List Waiver) (d : Diagnostic)
    → is_empty namespaces ≡ false
    → In d (unbound_tokens ws namespaces) ↔ ((w : Waiver) × In w ws × UnboundBy namespaces w d)
unfolding unbound_tokens
unbound_tokens-UnboundBy namespaces ws d h = (
  λ i. unbound_all_sound namespaces ws d (subst (In d) (if_false _ _ h) i),
  λ found.
      let (w, i, u) = found in
      subst (In d) (sym (if_false _ _ h)) (unbound_all_complete namespaces ws w d i u),
)
