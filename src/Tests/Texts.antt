-- ===== src/Tests/Texts.antt =====
-- Runs of the text, path, date and token functions.
use backstop_core.Prelude.{◌+◌, [], ◌∷◌, none, some, ◌≡◌, refl}
use backstop_core.Text.{trim_space}
use backstop_core.Text.Split.{split}
use backstop_core.Text.Numbers.{itoa}
use backstop_core.FilePath.{clean, normalize_path}
use backstop_core.Waiver.Calendar.{days, parse_date, format_date}
use backstop_core.Waiver.Token.{Location, ok, err, parse_token, deferred, unknown_reason}

split_run : split b'/' "a//b" ≡ "a" ∷ "" ∷ "b" ∷ []
unfolding split
split_run = refl

itoa_run : itoa 1305 ≡ "1305"
unfolding itoa
itoa_run = refl

clean_run : clean "./pkg//gate/../x.go" ≡ "pkg/x.go"
unfolding clean
clean_run = refl

normalize_path_run : normalize_path "/home/me/proj" "/home/me/proj/pkg/x.go" ≡ "pkg/x.go"
unfolding normalize_path trim_space
normalize_path_run = refl

parse_date_run : parse_date "2024-02-29" ≡ some (days 739310)
unfolding parse_date
parse_date_run = refl

parse_date_refused : parse_date "2023-02-29" ≡ none
unfolding parse_date
parse_date_refused = refl

format_date_run : format_date (days 739310 + 5) ≡ "2024-02-29"
unfolding format_date itoa
format_date_run = refl

abbrev at_line_4 : Location
at_line_4 = record { file = "a.go"; line = 4 }

parse_token_run :
    parse_token "@waiver:org/pack/rule:deferred:2030-01-02 see ISSUE-050 later" at_line_4
    ≡ ok (record {
      rule_id = "org/pack/rule";
      reason = deferred;
      expiry = days 741444;
      note = "see later";
      issue_ref = "ISSUE-050";
      file = "a.go";
      line = 4;
    })
unfolding parse_token
parse_token_run = refl

parse_token_refused :
    parse_token "@waiver:r:because:2030-01-02" at_line_4 ≡ err (unknown_reason "because")
unfolding parse_token
parse_token_refused = refl
