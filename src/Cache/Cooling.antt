-- ===== src/Cache/Cooling.antt =====
-- Cooldowns and the daily ration over any key-value store, go/pkg/yunmao/cache/cooldown.go. The
-- instants that the code reads from the clock are arguments.
pub mod Agreement
use yunmao.Base.{
  ℕ, ◌+◌, ◌-◌, ◌*◌, ◌/◌, ◌%◌, String, Bool, false, ◌&&◌, not, Option, none, some, ltb,
  if◌then◌else◌, ℤ, pos, pos_part, neg_part, add32, add64, two32, Action, pure, ◌>>=◌, ◌>>◌, List,
  [], ◌∷◌, ◌==◌, Time, Duration, before, add_time, sub_time, second, day_nanos, format_day,
  format_instant, parse_instant, codes, is_digit, mul64,
}
use yunmao.Cache.{Store, key}

pub data Outcome : Type 0 where
  ok blocked_room blocked_user blocked_daily : Outcome

pub record Cooldown : Type 0 where
  pub room_cooldown : Duration
  pub user_cooldown : Duration
  pub daily_limit_gram : ℕ  -- uint32

-- Who feeds which cat, and how much.
pub record Portion : Type 0 where
  pub room_id : String
  pub user_id : String
  pub cat_id : String
  pub amount_gram : ℕ  -- uint32

-- The int64 of the digits that a text starts with.
unfoldable pub parse_from : ℤ → List ℕ → ℤ
parse_from n [] = n
parse_from n (c ∷ cs) =
    let rest = parse_from (add64 (mul64 n 10) (pos (c - b'0'))) cs in if is_digit c then rest else n

unfoldable pub parse_int : String → ℤ
unfolding parse_from
parse_int s = parse_from (pos 0) (codes s)

-- `uint32(cur)`
unfoldable pub to_uint32 : ℤ → ℕ
to_uint32 z = (pos_part z % two32 + two32 - neg_part z % two32) % two32

unfoldable pub room_key : Portion → String
unfolding key
room_key p = key ("cool" ∷ "room" ∷ p.room_id ∷ [])

unfoldable pub user_key : Portion → String
unfolding key
user_key p = key ("cool" ∷ "ur" ∷ p.user_id ∷ p.room_id ∷ [])

unfoldable pub day_key : Portion → Time → String
unfolding key
day_key p now = key ("cool" ∷ "cat" ∷ p.cat_id ∷ format_day now ∷ [])

-- The instant until which the value of a key blocks, if it is later than now.
unfoldable pub blocks_until : Time → Option String → Option Time
blocks_until now none = none
blocks_until now (some v) =
    if not (v == "") && before now (parse_instant v) then some (parse_instant v) else none

-- `uint32(cur)+amountGram > dailyLimitGram`
unfoldable pub exceeds : Cooldown → Portion → String → Bool
unfolding parse_int to_uint32
exceeds c p v = ltb c.daily_limit_gram (add32 (to_uint32 (parse_int v)) p.amount_gram)

unfoldable pub exceeds_found : Cooldown → Portion → Option String → Bool
unfolding exceeds
exceeds_found c p none = false
exceeds_found c p (some v) = not (v == "") && exceeds c p v

unfoldable pub or_empty : Option String → String
or_empty none = ""
or_empty (some v) = v

module _ {C : Type 0} (store : Store C) (c : Cooldown) (p : Portion) where
  unfoldable pub check_daily : Time → Action C String (Outcome × Duration)
  unfolding day_key exceeds_found
  check_daily now =
      if ltb 0 c.daily_limit_gram
      then (do
        v ← store.get (day_key p now)
        pure (if exceeds_found c p v then blocked_daily else ok, pos 0))
      else pure (ok, pos 0)

  unfoldable pub check_user : Time → Action C String (Outcome × Duration)
  unfolding user_key blocks_until check_daily
  check_user now = do
    v ← store.get (user_key p)
    elim (blocks_until now v) [
      | some ts ↦ pure (blocked_user, sub_time ts now)
      | none ↦ check_daily now
    ]

  unfoldable pub check : Time → Action C String (Outcome × Duration)
  unfolding room_key blocks_until check_user
  check now = do
    v ← store.get (room_key p)
    elim (blocks_until now v) [
      | some ts ↦ pure (blocked_room, sub_time ts now)
      | none ↦ check_user now
    ]

  -- The count of the day. `later` is the clock in time.Until.
  unfoldable pub count_portion : Time → Time → Action C String Outcome
  unfolding day_key
  count_portion now later =
      if ltb 0 c.daily_limit_gram
      then (do
        store.incr_by (day_key p now) (pos p.amount_gram)
            (sub_time ((now / day_nanos + 1) * day_nanos) later)
        pure ok)
      else pure ok

  -- The writes of Consume.
  unfoldable pub record_portion : Time → Time → Action C String Outcome
  unfolding room_key user_key count_portion
  record_portion now later = do
    store.set (room_key p) (format_instant (add_time now c.room_cooldown))
        (add64 c.room_cooldown (pos second))
    store.set (user_key p) (format_instant (add_time now c.user_cooldown))
        (add64 c.user_cooldown (pos second))
    count_portion now later

  unfoldable pub consume_daily : Time → Time → Action C String Outcome
  unfolding day_key exceeds or_empty record_portion
  consume_daily now later =
      if ltb 0 c.daily_limit_gram
      then (do
        v ← store.get (day_key p now)
        if exceeds c p (or_empty v) then pure blocked_daily else record_portion now later)
      else record_portion now later

  unfoldable pub consume_user : Time → Time → Action C String Outcome
  unfolding user_key blocks_until consume_daily
  consume_user now later = do
    v ← store.get (user_key p)
    elim (blocks_until now v) [ some _ ↦ pure blocked_user | none ↦ consume_daily now later ]

  unfoldable pub consume : Time → Time → Action C String Outcome
  unfolding room_key blocks_until consume_user
  consume now later = do
    v ← store.get (room_key p)
    elim (blocks_until now v) [ some _ ↦ pure blocked_room | none ↦ consume_user now later ]
