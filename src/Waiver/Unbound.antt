-- ===== src/Waiver/Unbound.antt =====
-- pkg/waiver/unbound.go: the scan of the whole tree for tokens that name a pack which no lock
-- records.
pub mod Exact
use backstop_core.Prelude.{
  ℕ, ◌+◌, String, List, [], ◌∷◌, ◌++◌, Option, none, some, is_empty, member, if◌then◌else◌,
}
use backstop_core.Text.Numbers.{concat}
use backstop_core.Text.Split.{split}
use backstop_core.Waiver.Token.{Waiver, ok, err, drop_chars, parse_token}
use backstop_core.Waiver.Adjudicate.{Diagnostic, unbound, scan_occurrences}

-- The well-formed tokens of one line; the malformed ones are skipped.
unfoldable pub well_formed : String → ℕ → String → List ℕ → List Waiver
well_formed file line text [] = []
well_formed file line text (col ∷ cols) =
    let rest = well_formed file line text cols in
    elim (parse_token (drop_chars col text) (record { file = file; line = line })) [
      | err e ↦ rest
      | ok w ↦ w ∷ rest
    ]

-- `HarvestTokens`, from a line number on.
unfoldable pub harvest_tokens_from : String → ℕ → List String → List Waiver
unfolding well_formed
harvest_tokens_from file n [] = []
harvest_tokens_from file n (text ∷ rest) =
    well_formed file n text (scan_occurrences text) ++ harvest_tokens_from file (n + 1) rest

unfoldable pub harvest_tokens : String → List String → List Waiver
unfolding harvest_tokens_from
harvest_tokens file lines = harvest_tokens_from file 1 lines

-- `packNameOf`
abbrev pub pack_name_of_segments : List String → Option String
pack_name_of_segments (org ∷ pack ∷ rule ∷ rest) = some (concat (org ∷ "/" ∷ pack ∷ []))
pack_name_of_segments _ = none

unfoldable pub pack_name_of : String → Option String
unfolding split concat
pack_name_of rule = pack_name_of_segments (split b'/' rule)

-- The body of the loop of `Unbound`, for the pack that a token's rule names.
unfoldable pub unbound_named : List String → Waiver → Option String → Option Diagnostic
unfolding member
unbound_named namespaces w none = none
unbound_named namespaces w (some name) =
    if member name namespaces
    then none
    else some (record { rule_id = w.rule_id; file = w.file; line = w.line; kind = unbound name })

unfoldable pub unbound_of : List String → Waiver → Option Diagnostic
unfolding pack_name_of unbound_named
unbound_of namespaces w = unbound_named namespaces w (pack_name_of w.rule_id)

abbrev pub add_found : Option Diagnostic → List Diagnostic → List Diagnostic
add_found none ds = ds
add_found (some d) ds = d ∷ ds

unfoldable pub unbound_all : List Waiver → List String → List Diagnostic
unfolding unbound_of
unbound_all [] namespaces = []
unbound_all (w ∷ ws) namespaces = add_found (unbound_of namespaces w) (unbound_all ws namespaces)

-- `Unbound`
unfoldable pub unbound_tokens : List Waiver → List String → List Diagnostic
unfolding unbound_all
unbound_tokens tokens namespaces = if is_empty namespaces then [] else unbound_all tokens namespaces
