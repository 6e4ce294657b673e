-- ===== src/ChatText.antt =====
-- What the chat service, go/services/chat-svc/internal/service/service.go, does with texts: TrimSpace,
-- the length in runes, and the decimal counts of the limit.
use Prim.Native.Char.{code}
use yunmao.Base.{
  ℕ, suc, ◌+◌, ◌%◌, String, Bool, ◌&&◌, ◌||◌, Option, none, some, leb, nat_eq, if◌then◌else◌, ℤ,
  pos, add64, mul64, codes, List, [], ◌∷◌, ◌==◌, decimal_loop,
}
use yunmao.FeatureFlags.{bytes}

-- unicode.IsSpace
unfoldable pub is_space : ℕ → Bool
is_space c =
    (leb 9 c && leb c 13)
    || nat_eq c 32
    || nat_eq c 133
    || nat_eq c 160
    || nat_eq c 5760
    || (leb 8192 c && leb c 8202)
    || nat_eq c 8232
    || nat_eq c 8233
    || nat_eq c 8239
    || nat_eq c 8287
    || nat_eq c 12288

unfoldable pub trim_left : String → String
unfolding is_space
trim_left String.[] = ""
trim_left (String.◌∷◌ c s) =
    let rest = trim_left s in if is_space (code c) then rest else String.◌∷◌ c s

unfoldable pub trim_right : String → String
unfolding is_space
trim_right String.[] = ""
trim_right (String.◌∷◌ c s) =
    let rest = trim_right s in if rest == "" && is_space (code c) then "" else String.◌∷◌ c rest

-- strings.TrimSpace
unfoldable pub trim_space : String → String
unfolding trim_left trim_right
trim_space s = trim_right (trim_left s)

unfoldable pub utf8_len : String → ℕ
utf8_len String.[] = 0
utf8_len (String.◌∷◌ c s) = suc (utf8_len s)

-- `for n > 0`: a count below 10 ^ 20 has at most 20 digits.
unfoldable pub itoa : ℤ → String
unfolding decimal_loop
itoa (pos n) = if nat_eq n 0 then "0" else decimal_loop 20 n ""
itoa _ = ""

-- The loop over the bytes of a count; `val[i]-'0'` wraps in a byte.
unfoldable pub count_from : ℤ → List ℕ → ℤ
unfolding add64 mul64
count_from n [] = n
count_from n (b ∷ bs) = count_from (add64 (mul64 n 10) (pos ((b + 208) % 256))) bs

unfoldable pub count_of : Option String → ℤ
unfolding count_from bytes
count_of none = pos 0
count_of (some v) = count_from (pos 0) (bytes (codes v))
