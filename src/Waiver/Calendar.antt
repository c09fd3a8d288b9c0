-- ===== src/Waiver/Calendar.antt =====
-- What pkg/waiver uses of Go's `time`: instants, as nanoseconds from the first day of year 0, and
-- the layout `2006-01-02`, both ways.
use Prim.Native.String.{String, ◌++◌}
use backstop_core.Prelude.{
  ℕ, zero, suc, ◌+◌, ◌-◌, ◌*◌, ◌/◌, ◌%◌, code, Bool, not, ◌&&◌, ◌||◌, Option, none, some, ltb, leb,
  eqb, if◌then◌else◌,
}
use backstop_core.Text.Numbers.{itoa}

abbrev pub nanoseconds_per_day : ℕ
nanoseconds_per_day = 24 * 3600 * 1000000000

abbrev pub days : ℕ → ℕ
days n = n * nanoseconds_per_day

unfoldable pub is_leap : ℕ → Bool
is_leap y = eqb (y % 4) 0 && (not (eqb (y % 100) 0) || eqb (y % 400) 0)

unfoldable pub days_in_month : ℕ → ℕ → ℕ
unfolding is_leap
days_in_month y m =
    if eqb m 2
    then (if is_leap y then 29 else 28)
    else if eqb m 4 || eqb m 6 || eqb m 9 || eqb m 11
    then 30
    else 31

unfoldable pub days_in_year : ℕ → ℕ
unfolding is_leap
days_in_year y = if is_leap y then 366 else 365

-- The days of the years before `y`.
unfoldable pub days_before_year : ℕ → ℕ
days_before_year zero = 0
days_before_year (suc y) = 365 * suc y + (y / 4 + 1) + (y / 400 + 1) - (y / 100 + 1)

-- The days of the months `1` to `m` of a year.
unfoldable pub days_of_months : ℕ → ℕ → ℕ
unfolding days_in_month
days_of_months y zero = 0
days_of_months y (suc m) = days_of_months y m + days_in_month y (suc m)

abbrev digit_value : ℕ → Option ℕ
digit_value c = if leb b'0' c && leb c b'9' then some (c - b'0') else none

-- The number that exactly `n` digits spell, and the text after them.
unfoldable pub take_digits : ℕ → ℕ → String → Option (ℕ × String)
take_digits zero acc s = some (acc, s)
take_digits (suc n) acc String.[] = none
take_digits (suc n) acc (String.◌∷◌ c s) = elim (digit_value (code c)) [
  | none ↦ none
  | some d ↦ take_digits n (acc * 10 + d) s
]

unfoldable pub expect_dash : String → Option String
expect_dash String.[] = none
expect_dash (String.◌∷◌ c s) = if eqb (code c) b'-' then some s else none

infixl 5 ◌>>=◌
abbrev ◌>>=◌ : {A B : Type 0} → Option A → (A → Option B) → Option B
none >>= f = none
some a >>= f = f a

abbrev is_date : ℕ → ℕ → ℕ → Bool
is_date y m d = leb 1 m && leb m 12 && leb 1 d && leb d (days_in_month y m)

unfoldable pub end_of_date : ℕ → ℕ → ℕ × String → Option ℕ
unfolding days_in_month days_before_year days_of_months
end_of_date y m (d, String.[]) =
    if is_date y m d
    then some (days (days_before_year y + days_of_months y (m - 1) + (d - 1)))
    else none
end_of_date y m (d, String.◌∷◌ c s) = none

-- `time.Parse("2006-01-02", s)`
unfoldable pub parse_date : String → Option ℕ
unfolding take_digits expect_dash end_of_date
parse_date s = do
  (y, s1) ← take_digits 4 0 s
  s2 ← expect_dash s1
  (m, s3) ← take_digits 2 0 s2
  s4 ← expect_dash s3
  last ← take_digits 2 0 s4
  end_of_date y m last

-- The year and the day in it that a day number falls on; one round for each year is enough, so the
-- fuel is the day number.
unfoldable pub year_of : ℕ → ℕ → ℕ → ℕ × ℕ
unfolding days_in_year
year_of zero y d = (y, d)
year_of (suc fuel) y d =
    let later = year_of fuel (y + 1) (d - days_in_year y) in
    if ltb d (days_in_year y) then (y, d) else later

-- The month and the day in it; twelve rounds are enough.
unfoldable pub month_of : ℕ → ℕ → ℕ → ℕ → ℕ × ℕ
unfolding days_in_month
month_of zero y m d = (m, d)
month_of (suc fuel) y m d =
    let later = month_of fuel y (m + 1) (d - days_in_month y m) in
    if ltb d (days_in_month y m) then (m, d) else later

-- A number with leading zeros up to a width of two or of four.
unfoldable pub pad2 : ℕ → String
pad2 n = if ltb n 10 then "0" ++ itoa n else itoa n

unfoldable pub pad4 : ℕ → String
pad4 n =
    if ltb n 10
    then "000" ++ itoa n
    else if ltb n 100
    then "00" ++ itoa n
    else if ltb n 1000
    then "0" ++ itoa n
    else itoa n

-- `t.Format("2006-01-02")`
unfoldable pub format_date : ℕ → String
unfolding year_of month_of pad2 pad4
format_date t =
    let day_number = t / nanoseconds_per_day in
    let (y, day_of_year) = year_of day_number 0 day_number in
    let (m, d) = month_of 12 y 1 day_of_year in pad4 y ++ "-" ++ pad2 m ++ "-" ++ pad2 (d + 1)
