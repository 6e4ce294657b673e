-- ===== src/FeedingSafety/Tests.antt =====
-- Tests of the thresholds, and its theorems at concrete inputs.
use yunmao.Base.{◌≡◌, refl, pos, second, ◌*◌, if◌then◌else◌, ◌==◌, wrap64, atoi}
use yunmao.FeedingSafety.{Limits, parse_env}

abbrev strict : Limits
strict = record {
  room_cooldown = pos (90 * second);
  user_room_cooldown = pos 0;
  cat_daily_limit = 4;
}

env_ration :
    parse_env (λ name. if name == "YUNMAO_FEED_CAT_DAILY" then "20" else "x")
    ≡ record { room_cooldown = pos 0; user_room_cooldown = pos 0; cat_daily_limit = 20 }
unfolding parse_env atoi wrap64
env_ration = refl
