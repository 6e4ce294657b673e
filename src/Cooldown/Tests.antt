-- ===== src/Cooldown/Tests.antt =====
-- Tests of the limiter, and its theorems at concrete inputs.
use yunmao.Base.{
  ◌≡◌, refl, ◌≤◌, List, [], ◌∷◌, arith, pos, Time, second, add_time, lookup, insert, format_day,
  ◌*◌,
}
use yunmao.Cooldown.{
  Limiter, Feed, blocked_room, new_limiter, consume, day_key, pending, total_of, over_ration,
}
use yunmao.Cooldown.Spacing.{run, room_spacing}
use yunmao.Cooldown.Ration.{fed, daily_ration}

abbrev limiter : Limiter
limiter = record {
  room_cooldown = pos (30 * second);
  user_cooldown = pos (60 * second);
  daily_limit_gram = 12;
  room_next = [];
  user_next = [];
  daily_total = [];
}

abbrev feed : Feed
feed = record { room_id = "room_demo"; user_id = "u"; cat_id = "cat_demo"; amount_gram = 5 }

abbrev calls : List (Time × Feed)
calls = (1 * second, feed) ∷ (2 * second, feed) ∷ (100 * second, feed) ∷ (300 * second, feed) ∷ []

room_spacing_example :
    let l = run (consume limiter feed second).1 ((2 * second, feed) ∷ []) in
    consume l (record feed { user_id = "v"; amount_gram = 1 }) (30 * second) ≡ (blocked_room, l)
unfolding consume pending over_ration total_of day_key format_day lookup add_time
room_spacing_example =
    room_spacing limiter feed (record feed { user_id = "v"; amount_gram = 1 }) second (30 * second)
      ((2 * second, feed) ∷ []) refl refl (omega arith) (omega arith)

-- Two of the four feeds go through; the third would exceed the ration.
daily_ration_example : fed (new_limiter (pos 30) (pos 60) 12) "cat_demo:00010101" calls ≤ 12
daily_ration_example =
    daily_ration (pos 30) (pos 60) 12 calls "cat_demo:00010101" (omega arith) (omega arith)

fed_ten : fed (new_limiter (pos 30) (pos 60) 12) "cat_demo:00010101" calls ≡ 10
unfolding fed new_limiter consume pending over_ration total_of day_key format_day lookup insert
    add_time
fed_ten = refl

abbrev fed_today : Limiter
fed_today = record limiter { daily_total = ("cat_demo:00010101", 5) ∷ [] }

abbrev huge : Feed
huge = record feed { amount_gram = 4294967291 }
