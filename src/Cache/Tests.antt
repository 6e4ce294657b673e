-- ===== src/Cache/Tests.antt =====
-- Tests of the key-value store and the limiter over it, and their theorems at concrete inputs.
use yunmao.Base.{
  add_time, format_instant, some, parse_instant, format_day, lookup, ◌≡◌, refl, inr, false, none,
  List, [], ◌∷◌, Time, arith, pos, returns,
}
use yunmao.Cache.Memory.{MemoryStore, memory_store, memory_set_nx, expiry}
use yunmao.Cache.Memory.Once.{Call, set_nx, called, memory_set_nx_again}
use yunmao.Cache.Cooling.{
  Cooldown, Portion, room_key, user_key, day_key, ok, blocked_daily, check, consume,
}
use yunmao.Cache.Cooling.Agreement.{IsCool, check-consume}

abbrev empty : MemoryStore
empty = record { m = []; now = 10 }

abbrev cooldown : Cooldown
cooldown = record { room_cooldown = pos 30; user_cooldown = pos 60; daily_limit_gram = 12 }

abbrev portion : Portion
portion = record { room_id = "r"; user_id = "u"; cat_id = "c"; amount_gram = 20 }

-- A store with a cooldown of the room that is over, in an entry that is still kept.
abbrev cooled : MemoryStore
unfolding format_instant
cooled = record {
  m = (room_key portion, record { val = format_instant 5; counter = pos 0; expire = 20 }) ∷ [];
  now = 10;
}

cooled-IsCool : IsCool memory_store cooldown portion 10 none cooled cooled
unfolding memory_store lookup cooled room_key user_key day_key format_day parse_instant
cooled-IsCool =
    (some (format_instant 5), none, cooled, cooled, refl, inr (omega arith), refl, tt, refl)

check-consume_example :
    (check memory_store cooldown portion 10 cooled ≡ (returns (ok, pos 0), cooled))
    × (consume memory_store cooldown portion 10 11 cooled ≡ (returns blocked_daily, cooled))
check-consume_example =
    check-consume memory_store cooldown portion 10 11 cooled cooled cooled-IsCool (omega arith)
      (omega arith) (omega arith)

-- Somebody else tries to take the key, and takes another one.
abbrev between : List (Call × Time)
between = (set_nx "k" "3" (pos 5), 11) ∷ (set_nx "j" "4" (pos 5), 11) ∷ []

memory_set_nx_again_example :
    (memory_set_nx "k" "2"
      (pos 5)
      (record (called between (memory_set_nx "k" "1" (pos 5) empty).1) { now = 12 })).0
    ≡ returns false
unfolding memory_set_nx expiry lookup add_time
memory_set_nx_again_example =
    memory_set_nx_again empty "k" "1" "2" (pos 5) (pos 5) between 12 refl
      (omega arith, (omega arith, tt)) (inr (omega arith))
