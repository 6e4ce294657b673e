-- ===== src/Base/Atoi.antt =====
-- strconv.Atoi: an optional sign and decimal digits, within the range of an int64.
use Prim.Native.Nat.{ℕ, ◌+◌, ◌-◌, ◌*◌}
use Prim.Native.Char.{code}
use Prim.Native.String.{String}
use mathlib.Core.Bool.{Bool, ◌&&◌}
use mathlib.Core.Option.{Option, none, some}
use mathlib.Core.List.{List, [], ◌∷◌}
use mathlib.Core.Path.{◌≡◌, refl}
use yunmao.Base.Tests.{ltb, leb, nat_eq, if◌then◌else◌}
use yunmao.Base.Int.{ℤ, pos, negsuc, two63}

-- The code points of a text.
abbrev pub codes : String → List ℕ
codes String.[] = []
codes (String.◌∷◌ c s) = code c ∷ codes s

abbrev pub is_digit : ℕ → Bool
is_digit c = leb b'0' c && leb c b'9'

digits_from : ℕ → List ℕ → Option ℕ
digits_from acc [] = some acc
digits_from acc (c ∷ cs) =
    let rest = digits_from (acc * 10 + (c - b'0')) cs in if is_digit c then rest else none

-- At least one digit.
unsigned : List ℕ → Option ℕ
unfolding digits_from
unsigned [] = none
unsigned (c ∷ cs) = digits_from 0 (c ∷ cs)

positive : Option ℕ → Option ℤ
positive none = none
positive (some n) = if ltb n two63 then some (pos n) else none

negative : Option ℕ → Option ℤ
negative none = none
negative (some n) =
    if nat_eq n 0 then some (pos 0) else if leb n two63 then some (negsuc (n - 1)) else none

atoi_codes : List ℕ → Option ℤ
unfolding unsigned positive negative
atoi_codes [] = none
atoi_codes (c ∷ cs) =
    if nat_eq c b'-'
    then negative (unsigned cs)
    else if nat_eq c b'+'
    then positive (unsigned cs)
    else positive (unsigned (c ∷ cs))

unfoldable pub atoi : String → Option ℤ
unfolding atoi_codes
atoi s = atoi_codes (codes s)

atoi_plain : atoi "1200" ≡ some (pos 1200)
unfolding atoi
atoi_plain = refl

atoi_negative : atoi "-7" ≡ some (negsuc 6)
unfolding atoi
atoi_negative = refl

atoi_text : atoi "30s" ≡ none
unfolding atoi
atoi_text = refl
