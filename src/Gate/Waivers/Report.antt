-- ===== src/Gate/Waivers/Report.antt =====
-- pkg/gate/step_waiver.go: the findings and the reason that the pass reports.
use Prim.Native.String.{String}
use backstop_core.Prelude.{ℕ, List, [], ◌∷◌, map, ltb, length, is_empty, if◌then◌else◌}
use backstop_core.Text.Numbers.{concat, itoa}
use backstop_core.Text.Split.{join}
use backstop_core.Waiver.Token.{
  Waiver, ParseError, no_token, malformed_structure, missing_rule_id, unknown_reason,
  missing_expiry, invalid_expiry, waiver_marker,
}
use backstop_core.Waiver.Adjudicate.{Diagnostic, Kind, malformed, non_waivable, unbound, Result}
use backstop_core.Gate.Violation.{Violation, new_violation}

-- The message of a `Diagnostic`, and of the error behind a malformed one.
abbrev error_message : (String → String) → ParseError → String
error_message quote (no_token raw) =
    concat ("waiver: no " ∷ waiver_marker ∷ " token in " ∷ quote raw ∷ [])
error_message quote (malformed_structure core) =
    concat ("waiver: malformed structure " ∷ quote core ∷ ": want rule-id:reason-code:expiry" ∷ [])
error_message quote (missing_rule_id core) =
    concat ("waiver: missing rule-id in " ∷ quote core ∷ [])
error_message quote (unknown_reason r) = concat ("waiver: unknown reason-code " ∷ quote r ∷ [])
error_message quote (missing_expiry core) = concat ("waiver: missing expiry in " ∷ quote core ∷ [])
error_message quote (invalid_expiry e) =
    concat ("waiver: invalid expiry " ∷ quote e ∷ ": want YYYY-MM-DD" ∷ [])

abbrev kind_message : (String → String) → String → Kind → String
kind_message quote rule (malformed e) = error_message quote e
kind_message quote rule non_waivable =
    concat (
      "rule " ∷ rule ∷ " is declared non-waivable and cannot be suppressed by a @waiver token" ∷ [])
kind_message quote rule (unbound name) = concat (
    "waiver token names pack " ∷ name
    ∷ ", which matches no pack in backstop.lock; it suppresses nothing until it is re-keyed to a recorded pack or removed"
    ∷ [])

unfoldable pub diagnostic_message : (String → String) → Diagnostic → String
diagnostic_message quote d = kind_message quote d.rule_id d.kind

-- `waiverDiagToViolation`
unfoldable pub diagnostic_violation : (String → String) → String → Diagnostic → Violation
unfolding diagnostic_message
diagnostic_violation quote severity d =
    record (new_violation d.rule_id d.file (diagnostic_message quote d) severity) { line = d.line }

abbrev counted : ℕ → String → String → String
counted n what rules = concat ("; " ∷ itoa n ∷ what ∷ rules ∷ [])

-- `joinWaiverRules` and `joinDiagnosticRules`
unfoldable pub join_waiver_rules : List Waiver → String
unfolding join
join_waiver_rules ws = join ", " (map (λ w. w.rule_id) ws)

unfoldable pub join_diagnostic_rules : List Diagnostic → String
unfolding join
join_diagnostic_rules ds = join ", " (map (λ d. d.rule_id) ds)

-- `waiverReason`
unfoldable pub waiver_reason : Result → List Diagnostic → String
unfolding join_waiver_rules join_diagnostic_rules concat itoa
waiver_reason res unbound_found =
    let note =
      λ (n : ℕ) (what : String) (rules : String). if ltb 0 n then counted n what rules else "" in
    let in_parens = λ (rules : String). concat (" (" ∷ rules ∷ ")" ∷ []) in
    concat (
      (if is_empty res.active
        then "clean — no active waivers"
        else concat (
            "PASS · "
            ∷ itoa (length res.active)
            ∷ " waivers ("
            ∷ join_waiver_rules res.active
            ∷ ")"
            ∷ []))
      ∷ note (length res.expiring) " expiring soon" (in_parens (join_waiver_rules res.expiring))
      ∷ note (length res.unused) " unused/dangling" (in_parens (join_waiver_rules res.unused))
      ∷ note (length unbound_found) " unbound" (in_parens (join_diagnostic_rules unbound_found))
      ∷ note (length res.malformed_tokens) " malformed" ""
      ∷ note (length res.non_waivable_tokens) " non-waivable (gate error)" ""
      ∷ [])
