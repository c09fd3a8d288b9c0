-- ===== src/Waiver/Adjudicate.antt =====
-- pkg/waiver/adjudicate.go: which findings the tokens in their association windows suppress.
pub mod Keys
pub mod Harvest
pub mod Soundness
pub mod Found
pub mod Effective
use backstop_core.Prelude.{
  ℕ, zero, suc, ◌+◌, ◌-◌, String, Bool, false, not, List, [], ◌∷◌, ◌++◌, Option, none, some, ◌==◌,
  ltb, leb, keep, member, if◌then◌else◌,
}
use backstop_core.Text.Numbers.{concat, itoa}
use backstop_core.Text.Split.{has_prefix}
use backstop_core.Waiver.Calendar.{days}
use backstop_core.Waiver.Token.{
  Waiver, Parsed, ParseError, ok, err, waiver_marker, drop_chars, parse_token, expired,
}

-- `EndLine`, which adjudication does not read, is left out.
pub record Finding : Type 0 where
  pub rule_id : String
  pub file : String
  pub line : ℕ
  pub severity : String

-- `LineReader`: the text of a line, or nothing.
abbrev pub LineReader : Type 0
LineReader = String → ℕ → Option String

-- `Policy`, the interface; `none` is the nil policy.
abbrev pub WaiverPolicy : Type 0
WaiverPolicy = Option (String → String → Bool)

-- The kinds of a diagnostic, with what its message quotes: why a token is malformed, the rule that
-- is declared non-waivable, and the name of the pack that no lock records.
pub data Kind : Type 0 where
  malformed : ParseError → Kind
  non_waivable : Kind
  unbound : String → Kind

pub record Diagnostic : Type 0 where
  pub rule_id : String
  pub file : String
  pub line : ℕ
  pub kind : Kind

-- `Result`. `Unbound`, which adjudication never fills, is what `Waiver.Unbound` computes.
pub record Result : Type 0 where
  pub suppressed : List Finding
  pub active : List Waiver
  pub expiring : List Waiver
  pub expired_waivers : List Waiver
  pub unused : List Waiver
  pub malformed_tokens : List Diagnostic
  pub non_waivable_tokens : List Diagnostic

abbrev pub grace_window : ℕ
grace_window = days 30

pub record ParsedToken : Type 0 where
  pub parsed : Parsed
  pub file : String
  pub line : ℕ
  pub col : ℕ

pub record TokenState : Type 0 where
  pub pt : ParsedToken
  pub findings : List Finding

-- `scanOccurrences`: where the marker stands, `skip` characters of an occurrence being passed over.
-- Columns count characters.
unfoldable pub scan_from : ℕ → ℕ → String → List ℕ
unfolding has_prefix
scan_from off skip String.[] = []
scan_from off (suc skip) (String.◌∷◌ c s) = scan_from (off + 1) skip s
scan_from off zero (String.◌∷◌ c s) =
    let found = off ∷ scan_from (off + 1) 7 s in
    let rest = scan_from (off + 1) 0 s in
    if has_prefix (String.◌∷◌ c s) waiver_marker then found else rest

unfoldable pub scan_occurrences : String → List ℕ
unfolding scan_from
scan_occurrences text = scan_from 0 0 text

-- `windowLines`
unfoldable pub window_lines : Finding → List ℕ
window_lines f = if ltb 1 f.line then f.line ∷ (f.line - 1) ∷ [] else f.line ∷ []

-- The tokens of one line.
unfoldable pub token_at : String → ℕ → String → ℕ → ParsedToken
token_at file line text col = record {
  parsed = parse_token (drop_chars col text) (record { file = file; line = line });
  file = file;
  line = line;
  col = col;
}

unfoldable pub tokens_at : String → ℕ → String → List ℕ → List ParsedToken
unfolding token_at
tokens_at file line text [] = []
tokens_at file line text (col ∷ cols) = token_at file line text col ∷ tokens_at file line text cols

unfoldable pub line_tokens : String → ℕ → Option String → List ParsedToken
unfolding tokens_at scan_occurrences
line_tokens file line none = []
line_tokens file line (some text) = tokens_at file line text (scan_occurrences text)

unfoldable pub harvest_lines : LineReader → String → List ℕ → List ParsedToken
unfolding line_tokens
harvest_lines read file [] = []
harvest_lines read file (line ∷ lines) =
    line_tokens file line (read file line) ++ harvest_lines read file lines

-- `harvestWindow`
unfoldable pub harvest_window : LineReader → Finding → List ParsedToken
unfolding harvest_lines window_lines
harvest_window read f = harvest_lines read f.file (window_lines f)

-- `diagKey`
unfoldable pub diag_key : String → ℕ → ℕ → String
unfolding concat itoa
diag_key file line col = concat (file ∷ ":" ∷ itoa line ∷ ":" ∷ itoa col ∷ [])

unfoldable pub token_key : ParsedToken → String
token_key t = diag_key t.file t.line t.col

-- `tokens[key]` with the finding added, a new entry going to the end of `order`.
unfoldable pub associate :
    String → ParsedToken → Finding → List (String × TokenState) → List (String × TokenState)
associate key t f [] = (key, record { pt = t; findings = f ∷ [] }) ∷ []
associate key t f ((k, st) ∷ rest) =
    if k == key
    then (k, record st { findings = st.findings ++ f ∷ [] }) ∷ rest
    else (k, st) ∷ associate key t f rest

unfoldable pub associate_all :
    List ParsedToken → Finding → List (String × TokenState) → List (String × TokenState)
unfolding associate token_key
associate_all [] f m = m
associate_all (t ∷ ts) f m = associate_all ts f (associate (token_key t) t f m)

-- The first loop of `Adjudicate`.
unfoldable pub harvest :
    LineReader → List Finding → List (String × TokenState) → List (String × TokenState)
unfolding associate_all harvest_window
harvest read [] m = m
harvest read (f ∷ fs) m = harvest read fs (associate_all (harvest_window read f) f m)

-- `matchingFindings`
unfoldable pub matching_findings : String → List Finding → List Finding
unfolding keep
matching_findings rule fs = keep (λ f. f.rule_id == rule) fs

-- `associatedRuleID`
unfoldable pub associated_rule_id : List Finding → String
associated_rule_id [] = ""
associated_rule_id (f ∷ fs) = f.rule_id

-- The key under which a finding is suppressed once.
unfoldable pub suppression_key : Finding → String
unfolding diag_key
suppression_key f = concat (diag_key f.file f.line 0 ∷ ":" ∷ f.rule_id ∷ [])

-- The loop over the matched findings; the keys go along with the result.
unfoldable pub suppress : List Finding → List String × List Finding → List String × List Finding
unfolding suppression_key member
suppress [] st = st
suppress (f ∷ fs) (keys, out) =
    let key = suppression_key f in
    suppress fs (if member key keys then (keys, out) else (key ∷ keys, out ++ f ∷ []))

-- What the second loop carries from token to token.
pub record Progress : Type 0 where
  pub keys : List String
  pub result : Result

-- `policy != nil && !policy.Waivable(rule, matched[0].Severity)`
unfoldable pub refused_by : WaiverPolicy → String → Finding → Bool
refused_by none rule f = false
refused_by (some allows) rule f = not (allows rule f.severity)

-- The part of the second loop for a token that parses and has a match.
unfoldable pub adjudicate_match :
    WaiverPolicy → ℕ → ParsedToken → Waiver → Finding → List Finding → Progress → Progress
unfolding refused_by suppress expired
adjudicate_match policy now t w first others p =
    let res = p.result in
    let (keys', out) = suppress (first ∷ others) (p.keys, res.suppressed) in
    if refused_by policy w.rule_id first
    then record p {
      result = record res {
        non_waivable_tokens =
            res.non_waivable_tokens
            ++ record { rule_id = w.rule_id; file = t.file; line = t.line; kind = non_waivable }
              ∷ [];
      };
    }
    else if expired w now
    then record p { result = record res { expired_waivers = res.expired_waivers ++ w ∷ [] } }
    else record {
      keys = keys';
      result = record res {
        active = res.active ++ w ∷ [];
        expiring =
            if leb (w.expiry - now) grace_window then res.expiring ++ w ∷ [] else res.expiring;
        suppressed = out;
      };
    }

abbrev pub adjudicate_matches :
    WaiverPolicy → ℕ → ParsedToken → Waiver → List Finding → Progress → Progress
adjudicate_matches policy now t w [] p = record p {
  result = record p.result { unused = p.result.unused ++ w ∷ [] };
}
adjudicate_matches policy now t w (first ∷ others) p =
    adjudicate_match policy now t w first others p

-- The body of the second loop of `Adjudicate`.
unfoldable pub adjudicate_token : WaiverPolicy → ℕ → TokenState → Progress → Progress
unfolding adjudicate_match matching_findings associated_rule_id
adjudicate_token policy now st p = elim st.pt.parsed [
  | err e ↦ record p {
    result = record p.result {
      malformed_tokens =
          p.result.malformed_tokens
          ++ record {
            rule_id = associated_rule_id st.findings;
            file = st.pt.file;
            line = st.pt.line;
            kind = malformed e;
          }
            ∷ [];
    };
  }
  | ok w ↦ adjudicate_matches policy now st.pt w (matching_findings w.rule_id st.findings) p
]

unfoldable pub adjudicate_all : WaiverPolicy → ℕ → List (String × TokenState) → Progress → Progress
unfolding adjudicate_token
adjudicate_all policy now [] p = p
adjudicate_all policy now ((k, st) ∷ rest) p =
    adjudicate_all policy now rest (adjudicate_token policy now st p)

abbrev pub no_result : Result
no_result = record {
  suppressed = [];
  active = [];
  expiring = [];
  expired_waivers = [];
  unused = [];
  malformed_tokens = [];
  non_waivable_tokens = [];
}

-- `Adjudicate`; `none` is the nil reader.
unfoldable pub adjudicate : List Finding → Option LineReader → WaiverPolicy → ℕ → Result
unfolding harvest adjudicate_all
adjudicate findings none policy now = no_result
adjudicate findings (some read) policy now =
    let start : Progress = record { keys = []; result = no_result } in
    (adjudicate_all policy now (harvest read findings []) start).result
