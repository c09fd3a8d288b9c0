-- ===== src/Waiver/Token.antt =====
-- pkg/waiver/waiver.go: the grammar of one waiver token.
use Prim.Native.String.{String, ◌++◌}
use backstop_core.Prelude.{
  ℕ, zero, suc, code, Bool, true, false, not, ◌&&◌, ◌||◌, List, [], ◌∷◌, Option, none, some, ◌==◌,
  eqb, leb, keep, if◌then◌else◌,
}
use backstop_core.Text.{is_space, trim_space}
use backstop_core.Text.Split.{split, join, has_prefix, cons_head}
use backstop_core.Waiver.Calendar.{days, parse_date}

-- `ReasonCode`, with the spelling of each member.
pub data ReasonCode : Type 0 where
  false_positive accepted_risk deferred third_party : ReasonCode

abbrev pub reason_text : ReasonCode → String
reason_text false_positive = "false-positive"
reason_text accepted_risk = "accepted-risk"
reason_text deferred = "deferred"
reason_text third_party = "third-party"

-- `validReason`, with the member that it accepts.
unfoldable pub valid_reason : String → Option ReasonCode
valid_reason s =
    if s == "false-positive"
    then some false_positive
    else if s == "accepted-risk"
    then some accepted_risk
    else if s == "deferred"
    then some deferred
    else if s == "third-party"
    then some third_party
    else none

abbrev pub waiver_marker : String
waiver_marker = "@waiver:"

pub record Location : Type 0 where
  pub file : String
  pub line : ℕ

pub record Waiver : Type 0 where
  pub rule_id : String
  pub reason : ReasonCode
  pub expiry : ℕ
  pub note : String
  pub issue_ref : String
  pub file : String
  pub line : ℕ

-- `DefaultDuration`
unfoldable pub default_duration : ReasonCode → ℕ
default_duration false_positive = days 365
default_duration accepted_risk = days 90
default_duration deferred = days 90
default_duration third_party = days 90

-- `(Waiver).Expired`: at the expiry or past it.
unfoldable pub expired : Waiver → ℕ → Bool
expired w now = leb w.expiry now

abbrev is_digit : ℕ → Bool
is_digit c = leb b'0' c && leb c b'9'

unfoldable pub all_digits : String → Bool
all_digits String.[] = true
all_digits (String.◌∷◌ c s) = is_digit (code c) && all_digits s

-- The part of a word behind its first dash is not empty and of digits, and every character in front
-- of it is a capital letter.
unfoldable pub key_number : String → Bool
unfolding all_digits
key_number String.[] = false
key_number (String.◌∷◌ c s) =
    if eqb (code c) b'-'
    then not (s == "") && all_digits s
    else leb b'A' (code c) && leb (code c) b'Z' && key_number s

-- `issueRefLooksLike`. A word with no dash, or one that begins or ends with its dash, is none.
unfoldable pub issue_ref_looks_like : String → Bool
unfolding all_digits key_number
issue_ref_looks_like String.[] = false
issue_ref_looks_like (String.◌∷◌ c String.[]) = false
issue_ref_looks_like (String.◌∷◌ c (String.◌∷◌ d s)) =
    if eqb (code c) b'#'
    then all_digits (String.◌∷◌ d s)
    else if eqb (code c) b'-'
    then false
    else key_number (String.◌∷◌ c (String.◌∷◌ d s))

-- The text behind the first occurrence of the marker.
unfoldable pub drop_chars : ℕ → String → String
drop_chars zero s = s
drop_chars (suc n) String.[] = ""
drop_chars (suc n) (String.◌∷◌ c s) = drop_chars n s

unfoldable pub after_marker : String → Option String
unfolding has_prefix drop_chars
after_marker String.[] = none
after_marker (String.◌∷◌ c s) =
    if has_prefix (String.◌∷◌ c s) waiver_marker then some (drop_chars 7 s) else after_marker s

-- The text in front of the first blank or tab, and the text behind it if there is one.
abbrev push_front : String → String × Option String → String × Option String
push_front s (core, rest) = (s ++ core, rest)

unfoldable pub cut_blank : String → String × Option String
cut_blank String.[] = ("", none)
cut_blank (String.◌∷◌ c s) =
    let (core, rest) = cut_blank s in
    if eqb (code c) 32 || eqb (code c) 9 then ("", some s) else (String.◌∷◌ c core, rest)

-- `strings.Fields`: the maximal runs of characters that are not white space.
unfoldable pub runs : String → List String
unfolding is_space
runs String.[] = "" ∷ []
runs (String.◌∷◌ c s) =
    let rest = runs s in if is_space (code c) then "" ∷ rest else cons_head c rest

unfoldable pub fields : String → List String
unfolding runs keep
fields s = keep (λ r. not (r == "")) (runs s)

-- `splitTrailing`: the first word that looks like an issue reference, and the others.
unfoldable pub split_words : String → List String → List String × String
unfolding issue_ref_looks_like
split_words ref [] = ([], ref)
split_words ref (w ∷ ws) =
    if ref == "" && issue_ref_looks_like w
    then split_words w ws
    else (let (kept, r) = split_words ref ws in (w ∷ kept, r))

unfoldable pub split_trailing : String → String × String
unfolding split_words fields join
split_trailing trailing = let (kept, ref) = split_words "" (fields trailing) in (join " " kept, ref)

-- Why a token is malformed; the text is what the error message quotes.
pub data ParseError : Type 0 where
  no_token malformed_structure missing_rule_id unknown_reason missing_expiry invalid_expiry :
      String → ParseError

pub data Parsed : Type 0 where
  ok : Waiver → Parsed
  err : ParseError → Parsed

-- The text behind the core: the note and the issue reference.
unfoldable pub trailing_of : Option String → String × String
unfolding split_trailing trim_space
trailing_of none = ("", "")
trailing_of (some rest) =
    let trailing = trim_space rest in if trailing == "" then ("", "") else split_trailing trailing

-- The checks of `ParseToken` on the three parts of the core, in their order.
unfoldable pub parse_parts : Location → String → Option String → List String → Parsed
unfolding valid_reason parse_date trailing_of
parse_parts loc core rest (rule_text ∷ reason_str ∷ expiry_str ∷ []) =
    if rule_text == "" then err (missing_rule_id core) else elim (valid_reason reason_str) [
      | none ↦ err (unknown_reason reason_str)
      | some reason ↦
          if expiry_str == "" then err (missing_expiry core) else elim (parse_date expiry_str) [
            | none ↦ err (invalid_expiry expiry_str)
            | some expiry ↦ ok (record {
              rule_id = rule_text;
              reason = reason;
              expiry = expiry;
              note = (trailing_of rest).0;
              issue_ref = (trailing_of rest).1;
              file = loc.file;
              line = loc.line;
            })
          ]
    ]
parse_parts loc core rest _ = err (malformed_structure core)

unfoldable pub parse_core : Location → String × Option String → Parsed
unfolding parse_parts split
parse_core loc (core, rest) = parse_parts loc core rest (split b':' core)

-- `ParseToken`
unfoldable pub parse_token : String → Location → Parsed
unfolding after_marker parse_core cut_blank
parse_token raw loc = elim (after_marker raw) [
  | none ↦ err (no_token raw)
  | some rest ↦ parse_core loc (cut_blank rest)
]
