-- ===== src/RoomService/Tests.antt =====
-- Tests of the room service, and its theorems at concrete inputs.
use mathlib.Core.Path.{subst}
use yunmao.Base.{
  ◌≡◌, refl, [], ◌∷◌, true, false, some, none, pos, second, ◌*◌, lookup, returns, fails, Bool-cases,
  inl, inr, ◌==◌, eq_of_==, ne_of_==, zero_time, arith,
}
use yunmao.Errors.{app, new, auth_login_required}
use yunmao.AuthJwt.{KeyProvider, Claims, login}
use yunmao.DeviceService.{rs256}
use yunmao.RoomStore.{MemoryStore}
use yunmao.RoomStore
use yunmao.RoomService.{RoomService, set_status, rotate_stream_key}
use yunmao.RoomService.Subscription.{issue_subscription}
use yunmao.RoomService.Subscription.Granting.{Granted, issue_subscription-Granted}
use yunmao.RoomService.Upkeep.{Complete, AllComplete, here, sets, rotates, Reaches-AllComplete}

abbrev claims : Claims
claims = record {
  subject = "usr_1";
  audience = "yunmao.gateway";
  issuer = "yunmao";
  issued_at = 1;
  expires_at = 9;
  scope = "user";
  kind = login;
  room = "";
}

abbrev keys : KeyProvider
keys = record {
  active = returns (record { kid = "k"; alg = rs256; remote = false });
  verifying_by_kid = λ kid. returns (record { kid = kid; alg = rs256; is_rsa = true });
}

abbrev svc : RoomService
svc = record {
  jwt = record {
    signed_string = λ key c. returns c.room;
    parse_with_claims = λ f token. returns (claims, true);
  };
  signer = record { kp = keys; issuer = "yunmao" };
  ver = some keys;
  ttl = pos (600 * second);
  aud = "yunmao.gateway";
  region_id = "global";
  hmac_hex = λ text. text;
  flags = none;
  flag_name = "room.webrtc.enabled";
}

abbrev demo : RoomStore.Room
demo = record {
  id = "room_demo";
  cat_id = "cat_demo";
  device_id = "dev_demo";
  owner_id = "usr_demo";
  display_name = "demo";
  description = "";
  city = "";
  region_id = "global";
  visibility = "private";
  live_status = "online";
  feeding_status = "open";
  status = "live";
  feed_cooldown_seconds = 30;
  no_feed_window_start = "";
  no_feed_window_end = "";
  stream_key = "";
  stream_key_rotated_at = zero_time;
  cat_ids = [];
  created_at = 1;
  updated_at = 1;
}

abbrev rooms : MemoryStore
rooms = ("room_demo", demo) ∷ []

-- A private room wants a token, also where guests are allowed.
private_guest :
    issue_subscription svc (record { room_id = "room_demo"; user_token = "" }) true 5 6 rooms
    ≡ fails (app (new auth_login_required "private room requires login"))
unfolding issue_subscription lookup new
private_guest = refl

key_text :
    (rotate_stream_key svc "room_demo" 62135596800000000007 9 rooms).0
    ≡ returns "global_global|room_demo|7"
unfolding rotate_stream_key lookup
key_text = refl

issue_subscription-Granted_example :
    Granted svc
      (record { room_id = "room_demo"; user_token = "t" })
      false
      5
      6
      rooms
      (issue_subscription svc (record { room_id = "room_demo"; user_token = "t" }) false 5 6 rooms)
issue_subscription-Granted_example =
    issue_subscription-Granted svc (record { room_id = "room_demo"; user_token = "t" }) false 5 6
      rooms

rooms-AllComplete : AllComplete rooms
unfolding lookup
rooms-AllComplete k r found = elim (Bool-cases ("room_demo" == k)) [
  | inl e ↦
      let same : demo ≡ r = ground arith in
      subst (λ y. Complete k y) same
        (
          eq_of_== "room_demo" k e,
          ne_of_== "private" "" refl,
          ne_of_== "online" "" refl,
          ne_of_== "open" "" refl,
          ne_of_== "live" "" refl,
          λ q. ground arith,
        )
  | inr n ↦ absurd (ground arith)
]

Reaches-AllComplete_example :
    AllComplete
      (rotate_stream_key svc "room_demo" 8 9 (set_status "room_demo" "banned" 7 rooms).1).1
Reaches-AllComplete_example =
    Reaches-AllComplete svc rooms-AllComplete
      (rotates "room_demo" 8 9 (sets "room_demo" "banned" 7 here))
