-- ===== src/Cooldown.antt =====
-- The in-process feeding limiter, go/pkg/yunmao/cooldown/cooldown.go: a cooldown for each room, one
-- for each user in a room, and a cat's daily ration. The clock's reading is an argument.
pub mod Spacing
pub mod Ration
mod Tests
use yunmao.Base.{
  ℕ, ◌+◌, String, append, Bool, true, false, ◌&&◌, Option, none, some, ltb, if◌then◌else◌, pos,
  Dict, [], lookup, insert, Time, Duration, before, add_time, sub_time, format_day, add32,
}

pub record Limiter : Type 0 where
  pub room_cooldown : Duration
  pub user_cooldown : Duration
  pub daily_limit_gram : ℕ  -- uint32
  pub room_next : Dict Time
  pub user_next : Dict Time
  pub daily_total : Dict ℕ  -- uint32, keyed by cat_id:YYYYMMDD

pub data Outcome : Type 0 where
  ok blocked_room blocked_user blocked_daily : Outcome

unfoldable pub new_limiter : Duration → Duration → ℕ → Limiter
new_limiter room user daily = record {
  room_cooldown = room;
  user_cooldown = user;
  daily_limit_gram = daily;
  room_next = [];
  user_next = [];
  daily_total = [];
}

-- The arguments of `Check` and `Consume`.
pub record Feed : Type 0 where
  pub room_id : String
  pub user_id : String
  pub cat_id : String
  pub amount_gram : ℕ  -- uint32

-- `userID + "|" + roomID`
abbrev pub user_key : Feed → String
user_key f = append f.user_id (append "|" f.room_id)

-- `catID + ":" + now.Format("20060102")`
unfoldable pub day_key : Feed → Time → String
day_key f now = append f.cat_id (append ":" (format_day now))

-- `if next, ok := m[k]; ok && now.Before(next)`: the instant that is still to come.
unfoldable pub pending : Dict Time → String → Time → Option Time
pending m k now = elim (lookup k m) [
  | none ↦ none
  | some next ↦ if before now next then some next else none
]

-- A read of a map into uint32: a missing key reads as 0.
unfoldable pub total_of : Dict ℕ → String → ℕ
total_of m k = elim (lookup k m) [ none ↦ 0 | some n ↦ n ]

-- `l.dailyLimitGram > 0 && l.dailyTotal[dk]+amountGram > l.dailyLimitGram`
unfoldable pub over_ration : Limiter → String → ℕ → Bool
over_ration l dk amount =
    ltb 0 l.daily_limit_gram && ltb l.daily_limit_gram (add32 (total_of l.daily_total dk) amount)

unfoldable pub check : Limiter → Feed → Time → Outcome × Duration
check l f now = elim (pending l.room_next f.room_id now) [
  | some next ↦ (blocked_room, sub_time next now)
  | none ↦ elim (pending l.user_next (user_key f) now) [
    | some next ↦ (blocked_user, sub_time next now)
    | none ↦
        if over_ration l (day_key f now) f.amount_gram then (blocked_daily, pos 0) else (ok, pos 0)
  ]
]

-- What a feed that passed all checks writes.
unfoldable pub record_feed : Limiter → Feed → Time → Limiter
record_feed l f now = record l {
  room_next = insert f.room_id (add_time now l.room_cooldown) l.room_next;
  user_next = insert (user_key f) (add_time now l.user_cooldown) l.user_next;
  daily_total =
      insert (day_key f now) (add32 (total_of l.daily_total (day_key f now)) f.amount_gram)
        l.daily_total;
}

unfoldable pub consume : Limiter → Feed → Time → Outcome × Limiter
unfolding record_feed
consume l f now = elim (pending l.room_next f.room_id now) [
  | some next ↦ (blocked_room, l)
  | none ↦ elim (pending l.user_next (user_key f) now) [
    | some next ↦ (blocked_user, l)
    | none ↦
        if over_ration l (day_key f now) f.amount_gram
        then (blocked_daily, l)
        else (ok, record_feed l f now)
  ]
]
