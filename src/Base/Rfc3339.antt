-- ===== src/Base/Rfc3339.antt =====
-- `t.Format(time.RFC3339Nano)` of an instant in UTC, and `time.Parse(time.RFC3339Nano, s)`.
use Prim.Native.Nat.{ℕ, zero, suc, ◌+◌, ◌-◌, ◌*◌, ◌/◌, ◌%◌}
use Prim.Native.String.{String, ◌++◌}
use mathlib.Core.Path.{◌≡◌, refl}
use mathlib.Core.Bool.{Bool, not, ◌&&◌, ◌||◌}
use mathlib.Core.List.{List, [], ◌∷◌}
use yunmao.Base.Tests.{ltb, leb, nat_eq, if◌then◌else◌}
use yunmao.Base.Atoi.{codes, is_digit}
use yunmao.Base.Results.{Fallible, returns, fails, Action, pure, fail_if, ◌>>=◌, ◌>>◌}
use yunmao.Base.Clock.{
  Time, zero_time, last_digit, civil_from_days, two_digits, year_digits, day_nanos, second,
}

-- The number of digits and the digits that are left without the last zeros.
strip_zeros : ℕ → ℕ → ℕ × ℕ
strip_zeros zero f = (0, f)
strip_zeros (suc n) f =
    let rest = strip_zeros n (f / 10) in if nat_eq (f % 10) 0 then rest else (suc n, f)

fixed_digits : ℕ → ℕ → String → String
unfolding last_digit
fixed_digits zero f acc = acc
fixed_digits (suc n) f acc = fixed_digits n (f / 10) (last_digit f ++ acc)

fraction_text : ℕ → String
unfolding strip_zeros fixed_digits
fraction_text f =
    let (n, d) = strip_zeros 9 f in if nat_eq f 0 then "" else "." ++ fixed_digits n d ""

clock_text : ℕ → String
unfolding two_digits
clock_text s =
    two_digits (s / 3600) ++ (":" ++ (two_digits (s / 60 % 60) ++ (":" ++ two_digits (s % 60))))

calendar_text : ℕ × ℕ × ℕ → String
unfolding two_digits year_digits
calendar_text (y, m, d) = year_digits y ++ ("-" ++ (two_digits m ++ ("-" ++ two_digits d)))

unfoldable pub format_instant : Time → String
unfolding calendar_text clock_text fraction_text civil_from_days
format_instant t =
    calendar_text (civil_from_days (t / day_nanos))
    ++ ("T" ++ (clock_text (t % day_nanos / second) ++ (fraction_text (t % second) ++ "Z")))

abbrev Parser : Type 0 → Type 0
Parser A = Action (List ℕ) String A

digit : Parser ℕ
digit [] = (fails "short", [])
digit (c ∷ cs) = if is_digit c then (returns (c - b'0'), cs) else (fails "digit", c ∷ cs)

number : ℕ → ℕ → Parser ℕ
unfolding digit
number zero acc = pure acc
number (suc n) acc = do d ← digit; number n (acc * 10 + d)

expect : ℕ → Parser (Unit {0})
expect x [] = (fails "short", [])
expect x (c ∷ cs) = if nat_eq c x then (returns tt, cs) else (fails "text", c ∷ cs)

-- The digits of a fraction; those past the ninth do not count.
fraction_from : ℕ → ℕ → List ℕ → ℕ × List ℕ
fraction_from scale acc [] = (acc, [])
fraction_from scale acc (c ∷ cs) =
    let rest = fraction_from (scale / 10) (acc + (c - b'0') * scale) cs in
    if is_digit c then rest else (acc, c ∷ cs)

fraction : Parser ℕ
unfolding fraction_from
fraction (p ∷ c ∷ cs) =
    if (nat_eq p b'.' || nat_eq p b',') && is_digit c
    then (let (f, rest) = fraction_from 100000000 0 (c ∷ cs) in (returns f, rest))
    else (returns 0, p ∷ c ∷ cs)
fraction cs = (returns 0, cs)

-- The zone's offset in seconds: what is to be subtracted, and what is to be added.
zone : Parser (ℕ × ℕ)
unfolding number expect
zone [] = (fails "zone", [])
zone (c ∷ cs) =
    let offset : Fallible String ℕ × List ℕ =
      (do
        h ← number 2 0
        expect b':'
        m ← number 2 0
        fail_if (ltb 24 h || ltb 60 m) "range"
        pure (h * 3600 + m * 60))
        cs in
    if nat_eq c b'Z'
    then (returns (0, 0), cs)
    else if nat_eq c b'+'
    then elim offset.0 [ returns o ↦ (returns (o, 0), offset.1) | fails e ↦ (fails e, offset.1) ]
    else if nat_eq c b'-'
    then elim offset.0 [ returns o ↦ (returns (0, o), offset.1) | fails e ↦ (fails e, offset.1) ]
    else (fails "zone", c ∷ cs)

is_leap : ℕ → Bool
is_leap y = nat_eq (y % 4) 0 && (not (nat_eq (y % 100) 0) || nat_eq (y % 400) 0)

days_in : ℕ → ℕ → ℕ
unfolding is_leap
days_in y m =
    if nat_eq m 2
    then (if is_leap y then 29 else 28)
    else if nat_eq m 4 || nat_eq m 6 || nat_eq m 9 || nat_eq m 11
    then 30
    else 31

-- The days from 0001-01-01.
days_from_civil : ℕ → ℕ → ℕ → ℕ
days_from_civil y m d =
    let y' : ℕ = if leb m 2 then y + 399 else y + 400 in
    let mp : ℕ = if ltb 2 m then m - 3 else m + 9 in
    let yoe : ℕ = y' % 400 in
    y' / 400 * 146097 + (yoe * 365 + yoe / 4 - yoe / 100) + ((153 * mp + 2) / 5 + d - 1) - 146403

instant : Parser Time
unfolding number expect fraction zone days_in days_from_civil
instant = do
  y ← number 4 0
  expect b'-'
  m ← number 2 0
  expect b'-'
  d ← number 2 0
  expect b'T'
  hour ← number 2 0
  expect b':'
  minute ← number 2 0
  expect b':'
  s ← number 2 0
  f ← fraction
  (minus, plus) ← zone
  fail_if (not (leb 1 m && leb m 12 && leb 1 d && leb d (days_in y m))) "date"
  fail_if (not (ltb hour 24 && ltb minute 60 && ltb s 60)) "time"
  pure ((days_from_civil y m d * 86400 + hour * 3600 + minute * 60 + s + plus - minus) * second + f)

-- `ts, _ := time.Parse(time.RFC3339Nano, s)`: the zero time on an error.
parsed : Fallible String Time × List ℕ → Time
parsed (returns t, []) = t
parsed _ = zero_time

unfoldable pub parse_instant : String → Time
unfolding parsed instant
parse_instant s = parsed (instant (codes s))

abbrev leap_noon : Time
leap_noon = 738944 * day_nanos + 43200 * second + 120000000

format_leap_noon : format_instant leap_noon ≡ "2024-02-29T12:00:00.12Z"
unfolding format_instant
format_leap_noon = refl

parse_leap_noon : parse_instant "2024-02-29T12:00:00.12Z" ≡ leap_noon
unfolding parse_instant
parse_leap_noon = refl

parse_offset : parse_instant "2024-02-29T20:00:00.12+08:00" ≡ leap_noon
unfolding parse_instant
parse_offset = refl

parse_no_date : parse_instant "2023-02-29T12:00:00Z" ≡ zero_time
unfolding parse_instant
parse_no_date = refl
