-- ===== src/FeedingSafety.antt =====
-- Feeding safety thresholds, go/pkg/yunmao/feedingsafety/feedingsafety.go: defaults, environment,
-- global and room overrides. The environment is a function from names to texts.
pub mod Priority
mod Tests
use yunmao.Base.{
  ℕ, ◌*◌, ◌%◌, String, Bool, true, false, ◌||◌, not, Option, none, some, ltb, if◌then◌else◌, ◌==◌,
  ℤ, pos, pos_part, ltb_ℤ, wrap64, two32, Dict, [], lookup, insert, Duration, second, atoi,
}

pub record Limits : Type 0 where
  pub room_cooldown : Duration
  pub user_room_cooldown : Duration
  pub cat_daily_limit : ℕ  -- uint32

unfoldable pub default_global : Limits
default_global = record {
  room_cooldown = pos (30 * second);
  user_room_cooldown = pos (60 * second);
  cat_daily_limit = 12;
}

-- The zero value of the struct.
abbrev pub zero_limits : Limits
zero_limits = record { room_cooldown = pos 0; user_room_cooldown = pos 0; cat_daily_limit = 0 }

-- What a read of a Store gives: an error, or a row or its absence.
pub data Read : Type 0 where
  failed : String → Read
  found : Option Limits → Read

-- The interface Store, as Manager uses it.
abbrev pub Store : Type 0
Store = String → Read

unfoldable pub merge : Limits → Limits → Limits
merge base override = record {
  room_cooldown =
      if ltb_ℤ (pos 0) override.room_cooldown then override.room_cooldown else base.room_cooldown;
  user_room_cooldown =
      if ltb_ℤ (pos 0) override.user_room_cooldown
      then override.user_room_cooldown
      else base.user_room_cooldown;
  cat_daily_limit =
      if ltb 0 override.cat_daily_limit then override.cat_daily_limit else base.cat_daily_limit;
}

-- One variable of ParseEnv: its positive integer, if it has one.
unfoldable pub env_int : (String → String) → String → Option ℕ
env_int getenv name = if getenv name == "" then none else elim (atoi (getenv name)) [
  | none ↦ none
  | some n ↦ if ltb_ℤ (pos 0) n then some (pos_part n) else none
]

-- `time.Duration(n) * time.Second`
unfoldable pub seconds : ℕ → Duration
seconds n = wrap64 (pos (n * second))

unfoldable pub parse_env : (String → String) → Limits
unfolding env_int seconds
parse_env getenv = record {
  room_cooldown = elim (env_int getenv "YUNMAO_FEED_ROOM_COOLDOWN_SEC") [
    | none ↦ pos 0
    | some n ↦ seconds n
  ];
  user_room_cooldown = elim (env_int getenv "YUNMAO_FEED_USER_ROOM_COOLDOWN_SEC") [
    | none ↦ pos 0
    | some n ↦ seconds n
  ];
  cat_daily_limit = elim (env_int getenv "YUNMAO_FEED_CAT_DAILY") [ none ↦ 0 | some n ↦ n % two32 ];
}

pub data Resolved : Type 0 where
  ok : Limits → Resolved
  err : String → Resolved

-- The read of one override on top of what is resolved so far.
unfoldable pub override_by : Read → Limits → Resolved
override_by (failed e) cur = err e
override_by (found none) cur = ok cur
override_by (found (some l)) cur = ok (merge cur l)

-- `m.store == nil` is `none`.
unfoldable pub resolve : Option Store → Limits → String → Resolved
unfolding override_by
resolve none env room = ok (merge default_global env)
resolve (some get) env room = elim (override_by (get "") (merge default_global env)) [
  | err e ↦ err e
  | ok cur ↦ if not (room == "") then override_by (get room) cur else ok cur
]

-- MemoryStore.
unfoldable pub memory_get : Dict Limits → Store
memory_get m room = found (lookup room m)

-- `Put`: the error, or the new map.
unfoldable pub memory_put : Dict Limits → String → Limits → Option (Dict Limits)
memory_put m room l =
    if ltb_ℤ l.room_cooldown (pos 0) || ltb_ℤ l.user_room_cooldown (pos 0)
    then none
    else some (insert room l m)
