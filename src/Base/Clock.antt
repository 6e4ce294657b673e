-- ===== src/Base/Clock.antt =====
-- Go's time.Time and time.Duration. An instant counts the nanoseconds since Go's zero Time
-- (0001-01-01 00:00 UTC); a duration is an int64 of nanoseconds.
use Prim.Native.Nat.{ℕ, zero, suc, ◌+◌, ◌-◌, ◌*◌, ◌/◌, ◌%◌}
use Prim.Native.String.{String, ◌++◌}
use mathlib.Core.Path.{◌≡◌, refl}
use mathlib.Core.Bool.{Bool}
use mathlib.Core.List.{List, [], ◌∷◌}
use yunmao.Base.Tests.{ltb, leb, if◌then◌else◌}
use yunmao.Base.Int.{ℤ, pos, negsuc, pos_part, ◌+ℤ◌, ◌-ℤ◌, ltb_ℤ, two63}

abbrev pub Time : Type 0
Time = ℕ

abbrev pub Duration : Type 0
Duration = ℤ

abbrev pub zero_time : Time
zero_time = 0

-- time.Second
abbrev pub second : ℕ
second = 1000000000

-- `t.Before(u)` and `t.After(u)`
abbrev pub before : Time → Time → Bool
before t u = ltb t u

abbrev pub after : Time → Time → Bool
after t u = ltb u t

-- `t.Add(d)`
unfoldable pub add_time : Time → Duration → Time
unfolding ◌+ℤ◌
add_time t d = pos_part (pos t +ℤ d)

-- `t.Sub(u)`, which saturates at the ends of Duration.
unfoldable pub sub_time : Time → Time → Duration
unfolding ◌-ℤ◌
sub_time t u =
    let d = pos t -ℤ pos u in
    if ltb_ℤ (pos (two63 - 1)) d
    then pos (two63 - 1)
    else if ltb_ℤ d (negsuc (two63 - 1))
    then negsuc (two63 - 1)
    else d

digit_text : ℕ → List String → String
digit_text n [] = ""
digit_text zero (d ∷ ds) = d
digit_text (suc n) (d ∷ ds) = digit_text n ds

-- The last decimal digit of a number.
unfoldable pub last_digit : ℕ → String
unfolding digit_text
last_digit n = digit_text (n % 10) ("0" ∷ "1" ∷ "2" ∷ "3" ∷ "4" ∷ "5" ∷ "6" ∷ "7" ∷ "8" ∷ "9" ∷ [])

-- Decimal digits of a positive number in front of a text; every round divides by 10.
unfoldable pub decimal_loop : ℕ → ℕ → String → String
unfolding last_digit
decimal_loop zero n acc = acc
decimal_loop (suc fuel) n acc =
    let rest = decimal_loop fuel (n / 10) (last_digit n ++ acc) in if leb n 0 then acc else rest

-- The civil date of a day that is counted from 0001-01-01: year, month, day.
unfoldable pub civil_from_days : ℕ → ℕ × ℕ × ℕ
civil_from_days days =
    let z : ℕ = days + 306 in
    let era : ℕ = z / 146097 in
    let doe : ℕ = z % 146097 in
    let yoe : ℕ = (doe + doe / 36524 - doe / 1460 - doe / 146096) / 365 in
    let doy : ℕ = doe + yoe / 100 - (365 * yoe + yoe / 4) in
    let mp : ℕ = (5 * doy + 2) / 153 in
    let month : ℕ = if ltb mp 10 then mp + 3 else mp - 9 in
    (yoe + era * 400 + (if leb month 2 then 1 else 0), month, doy - (153 * mp + 2) / 5 + 1)

unfoldable pub two_digits : ℕ → String
unfolding last_digit
two_digits n = last_digit (n / 10) ++ last_digit n

-- At least four digits, as Go prints a year.
unfoldable pub year_digits : ℕ → String
unfolding two_digits decimal_loop
year_digits y =
    let long = decimal_loop y y "" in
    if ltb y 10000 then two_digits (y / 100) ++ two_digits y else long

date_text : ℕ × ℕ × ℕ → String
unfolding year_digits two_digits
date_text (y, m, d) = year_digits y ++ (two_digits m ++ two_digits d)

abbrev pub day_nanos : ℕ
day_nanos = 86400000000000

-- `t.Format("20060102")` of an instant in UTC.
unfoldable pub format_day : Time → String
unfolding civil_from_days date_text
format_day t = date_text (civil_from_days (t / day_nanos))

-- 2024-02-29, and the first day.
format_day_leap : format_day (738944 * day_nanos + 5) ≡ "20240229"
unfolding format_day
format_day_leap = refl

format_day_first : format_day 0 ≡ "00010101"
unfolding format_day
format_day_first = refl
