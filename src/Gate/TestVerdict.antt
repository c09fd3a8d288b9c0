-- ===== src/Gate/TestVerdict.antt =====
-- pkg/gate/test_verdict_join.go: the verdicts of a test engine joined with the tests that an
-- implemented spec mandates.
pub mod Names
pub mod Join
use Prim.Native.String.{String, ◌++◌}
use Prim.Native.Char.{Char}
use backstop_core.Prelude.{
  ℕ, code, Bool, true, false, not, ◌&&◌, ◌||◌, List, [], ◌∷◌, Option, none, some, keep, is_empty,
  map, leb, eqb, ◌==◌, if◌then◌else◌,
}
use backstop_core.Text.Numbers.{concat}
use backstop_core.Text.Split.{join, has_prefix}
use backstop_core.FilePath.{normalize_path}
use backstop_core.Gate.Violation.{Violation, new_violation}
use backstop_core.Gate.Scope.{GateScope, is_all, scope_contains}
use backstop_core.Gate.StatusDrift.{MandatedTest}

-- `RouteTestVerdictFindings`
unfoldable pub route_test_verdict_findings : List Violation → List Violation
unfolding keep
route_test_verdict_findings vs = keep (λ v. v.gate_type == "test") vs

-- `isIdentifierByte`
unfoldable pub is_identifier_byte : ℕ → Bool
is_identifier_byte b =
    (leb b'a' b && leb b b'z')
    || (leb b'A' b && leb b b'Z')
    || (leb b'0' b && leb b b'9')
    || eqb b b'_'

-- What follows `name` in a text that begins with it.
unfoldable pub after_name : String → String → Option String
after_name s String.[] = some s
after_name String.[] (String.◌∷◌ d t) = none
after_name (String.◌∷◌ c s) (String.◌∷◌ d t) =
    let rest = after_name s t in if eqb (code c) (code d) then rest else none

-- `afterOK` for an occurrence with this text behind it.
unfoldable pub ends_identifier : String → Bool
unfolding is_identifier_byte
ends_identifier String.[] = true
ends_identifier (String.◌∷◌ c s) = not (is_identifier_byte (code c))

abbrev pub named_here : Bool → Option String → Bool
named_here before_ok none = false
named_here before_ok (some rest) = before_ok && ends_identifier rest

-- The loop over the occurrences; `before_ok` tells of the character in front of `s`.
unfoldable pub names_from : Bool → String → String → Bool
unfolding after_name ends_identifier is_identifier_byte
names_from before_ok String.[] name = named_here before_ok (after_name String.[] name)
names_from before_ok (String.◌∷◌ c s) name =
    named_here before_ok (after_name (String.◌∷◌ c s) name)
    || names_from (not (is_identifier_byte (code c))) s name

-- `verdictNamesTest`
unfoldable pub verdict_names_test : String → String → Bool
unfolding names_from
verdict_names_test message name = if name == "" then false else names_from true message name

-- `contractsAreDue`
unfoldable pub contracts_are_due : String → Bool
contracts_are_due status = status == "implemented"

abbrev pub project_root_of : Option GateScope → String
project_root_of none = ""
project_root_of (some s) = s.project_root

-- Whether the scope keeps a mandated test.
unfoldable pub test_in_scope : Option GateScope → MandatedTest → Bool
unfolding scope_contains
test_in_scope none mt = true
test_in_scope (some s) mt =
    is_all s.mode
    || (not (mt.file_path == "") && scope_contains (some s) mt.file_path)
    || scope_contains (some s) mt.spec_file

unfoldable pub messages_naming : List Violation → String → List String
unfolding verdict_names_test
messages_naming [] name = []
messages_naming (v ∷ vs) name =
    let rest = messages_naming vs name in
    if verdict_names_test v.message name then v.message ∷ rest else rest

-- The violation for a mandated test that the messages name.
unfoldable pub mandated_failure : Option GateScope → MandatedTest → List String → Violation
unfolding concat join
mandated_failure scope mt details =
    new_violation "mandated_test_failed"
      (normalize_path (project_root_of scope)
        (if mt.file_path == "" then mt.spec_file else mt.file_path))
      (concat (
        "mandated test "
        ∷ mt.func_name
        ∷ " FAILED (spec "
        ∷ mt.spec_id
        ∷ ", claim "
        ∷ mt.claim_id
        ∷ "): "
        ∷ join "; " details
        ∷ []))
      "critical"

-- Whether the loop body reaches its `append`.
unfoldable pub is_failed_mandate : Option GateScope → List Violation → MandatedTest → Bool
unfolding contracts_are_due test_in_scope messages_naming
is_failed_mandate scope verdicts mt =
    contracts_are_due mt.status
    && test_in_scope scope mt
    && not (is_empty (messages_naming verdicts mt.func_name))

-- `MandatedTestFailures`
unfoldable pub mandated_test_failures :
    List MandatedTest → List Violation → Option GateScope → List Violation
unfolding is_failed_mandate mandated_failure
mandated_test_failures [] verdicts scope = []
mandated_test_failures (mt ∷ mts) verdicts scope =
    let rest = mandated_test_failures mts verdicts scope in
    if is_failed_mandate scope verdicts mt
    then mandated_failure scope mt (messages_naming verdicts mt.func_name) ∷ rest
    else rest
