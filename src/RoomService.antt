-- ===== src/RoomService.antt =====
-- The room service over the in-process store, go/services/room-svc/internal/service/service.go:
-- rooms, their status and stream keys, and the gray release. The child Subscription has the room
-- subscriptions.
pub mod Subscription
pub mod Upkeep
mod Tests
use yunmao.Base.{
  ℕ, suc, ◌*◌, String, append, Bool, true, false, not, ◌&&◌, ◌||◌, Option, none, some, nat_eq,
  leb_ℤ, if◌then◌else◌, ℤ, pos, negsuc, ◌-ℤ◌, wrap64, decimal_loop, Fallible, returns, fails,
  Action, pure, fail, fail_if, ◌>>=◌, ◌>>◌, List, [], ◌∷◌, map, ◌==◌, Dict, lookup, Time, Duration,
  zero_time, add_time, second,
}
use yunmao.Errors.{app, new, system_internal}
use yunmao.FeatureFlags.{Flag, get_flag, number_or, is_room_in_gray_percent}
use yunmao.AuthJwt.{Jwt, KeyProvider, Signer}
use yunmao.DeviceService.{wish_or}
use yunmao.RoomStore.{MemoryStore, Method, ListFilter}
use yunmao.RoomStore

pub record Room : Type 0 where
  pub id : String
  pub cat_id : String
  pub device_id : String
  pub owner_id : String
  pub display_name : String
  pub description : String
  pub city : String
  pub region_id : String
  pub visibility : String
  pub live_status : String
  pub feeding_status : String
  pub status : String
  pub feed_cooldown_seconds : ℕ  -- uint32
  pub no_feed_window_start : String
  pub no_feed_window_end : String
  pub stream_key : String
  pub cat_ids : List String
  pub created_at : Time
  pub updated_at : Time
  pub protocol_pref : String
  pub gray_hit_webrtc : Bool
  pub gray_hit_webrtc_pct : ℤ

-- `hmac_hex` gives the first 16 bytes of the HMAC-SHA256 of a text under the key of the service, as
-- hexadecimal text; `flags` is the cache of the flag manager.
pub record RoomService : Type 0 where
  pub jwt : Jwt
  pub signer : Signer
  pub ver : Option KeyProvider
  pub ttl : Duration
  pub aud : String
  pub region_id : String
  pub hmac_hex : String → String
  pub flags : Option (Dict Flag)
  pub flag_name : String

abbrev or_default : String → String → String
or_default s d = if s == "" then d else s

-- The defaults of `New` for what is modelled.
unfoldable pub new_service : RoomService → RoomService
new_service cfg = record cfg {
  ttl = if leb_ℤ cfg.ttl (pos 0) && leb_ℤ (pos 0) cfg.ttl then pos (600 * second) else cfg.ttl;
  aud = or_default cfg.aud "yunmao.gateway";
  region_id = or_default cfg.region_id "global";
  flag_name = or_default cfg.flag_name "room.webrtc.enabled";
}

unfoldable pub with_gray : RoomService → Room → Room
unfolding get_flag number_or is_room_in_gray_percent
with_gray s r = elim s.flags [
  | none ↦ r
  | some cache ↦ record r {
    gray_hit_webrtc_pct =
        number_or (lookup "gray_percent" (get_flag cache s.flag_name).value) (pos 0);
    gray_hit_webrtc = is_room_in_gray_percent cache s.flag_name r.id;
  }
]

unfoldable pub resolve_protocol_pref : RoomService → Room → Room
unfolding with_gray
resolve_protocol_pref s r =
    let r' = with_gray s r in
    record r' {
      protocol_pref =
          if r'.protocol_pref == ""
          then if r'.gray_hit_webrtc then "webrtc" else "ll-hls"
          else r'.protocol_pref;
    }

unfoldable pub to_service_room : RoomStore.Room → Room
to_service_room r = record {
  id = r.id;
  cat_id = r.cat_id;
  device_id = r.device_id;
  owner_id = r.owner_id;
  display_name = r.display_name;
  description = r.description;
  city = r.city;
  region_id = r.region_id;
  visibility = r.visibility;
  live_status = r.live_status;
  feeding_status = r.feeding_status;
  status = r.status;
  feed_cooldown_seconds = r.feed_cooldown_seconds;
  no_feed_window_start = r.no_feed_window_start;
  no_feed_window_end = r.no_feed_window_end;
  stream_key = r.stream_key;
  cat_ids = r.cat_ids;
  created_at = r.created_at;
  updated_at = r.updated_at;
  protocol_pref = "";
  gray_hit_webrtc = false;
  gray_hit_webrtc_pct = pos 0;
}

unfoldable pub to_store_room : Room → RoomStore.Room
to_store_room r = record {
  id = r.id;
  cat_id = r.cat_id;
  device_id = r.device_id;
  owner_id = r.owner_id;
  display_name = r.display_name;
  description = r.description;
  city = r.city;
  region_id = r.region_id;
  visibility = r.visibility;
  live_status = r.live_status;
  feeding_status = r.feeding_status;
  status = r.status;
  feed_cooldown_seconds = r.feed_cooldown_seconds;
  no_feed_window_start = r.no_feed_window_start;
  no_feed_window_end = r.no_feed_window_end;
  stream_key = r.stream_key;
  stream_key_rotated_at = zero_time;
  cat_ids = r.cat_ids;
  created_at = r.created_at;
  updated_at = r.updated_at;
}

unfoldable pub get : RoomService → String → Method Room
unfolding RoomStore.get to_service_room resolve_protocol_pref
get s id = do r ← RoomStore.get id; pure (resolve_protocol_pref s (to_service_room r))

unfoldable pub list : ListFilter → MemoryStore → List Room
unfolding RoomStore.list to_service_room
list f m = map to_service_room (RoomStore.list f m)

-- The decimal text of an int64, which has at most 20 digits.
unfoldable pub decimal : ℤ → String
unfolding decimal_loop
decimal (pos n) = if nat_eq n 0 then "0" else decimal_loop 20 n ""
decimal (negsuc n) = append "-" (decimal_loop 20 (suc n) "")

-- `t.UnixNano()`
unfoldable pub unix_nano : Time → ℤ
unfolding wrap64 ◌-ℤ◌
unix_nano t = wrap64 (pos t -ℤ pos (62135596800 * second))

unfoldable pub derive_stream_key : RoomService → String → Time → String
unfolding decimal unix_nano
derive_stream_key s id now = append s.region_id (
    append "_" (
      s.hmac_hex
        (append s.region_id (append "|" (append id (append "|" (decimal (unix_nano now))))))))

abbrev or_list : List String → List String → List String
or_list [] d = d
or_list (x ∷ xs) d = x ∷ xs

-- The defaults of Create; `new_id` is what ids.New returns.
unfoldable pub created : RoomService → Room → String → Time → Room
unfolding derive_stream_key
created s r new_id now =
    let id = or_default r.id new_id in
    record r {
      id = id;
      live_status = or_default r.live_status "offline";
      feeding_status = or_default r.feeding_status "closed";
      status = or_default r.status "offline";
      feed_cooldown_seconds =
          if nat_eq r.feed_cooldown_seconds 0 then 30 else r.feed_cooldown_seconds;
      visibility = or_default r.visibility "public";
      region_id = or_default r.region_id s.region_id;
      created_at = now;
      updated_at = now;
      stream_key = or_default r.stream_key (derive_stream_key s id now);
      cat_ids = or_list r.cat_ids (if r.cat_id == "" then [] else r.cat_id ∷ []);
    }

-- `later` is the clock that the store reads.
unfoldable pub create : RoomService → Room → String → Time → Time → Method Room
unfolding created to_store_room RoomStore.create new
create s r new_id now later = do
  fail_if (r.display_name == "") (app (new system_internal "display_name required"))
  let r' = created s r new_id now
  _ ← RoomStore.create (to_store_room r') later
  pure r'

unfoldable pub merged : Room → RoomStore.Room → RoomStore.Room
merged r existing = record existing {
  display_name = wish_or r.display_name existing.display_name;
  description = wish_or r.description existing.description;
  city = wish_or r.city existing.city;
  region_id = wish_or r.region_id existing.region_id;
  visibility = wish_or r.visibility existing.visibility;
  cat_id = wish_or r.cat_id existing.cat_id;
  device_id = wish_or r.device_id existing.device_id;
  owner_id = wish_or r.owner_id existing.owner_id;
  feed_cooldown_seconds =
      if nat_eq r.feed_cooldown_seconds 0
      then existing.feed_cooldown_seconds
      else r.feed_cooldown_seconds;
  cat_ids = or_list r.cat_ids existing.cat_ids;
  no_feed_window_start = wish_or r.no_feed_window_start existing.no_feed_window_start;
  no_feed_window_end = wish_or r.no_feed_window_end existing.no_feed_window_end;
}

unfoldable pub update : Room → Time → Method Room
unfolding merged RoomStore.get RoomStore.update to_service_room new
update r now = do
  fail_if (r.id == "") (app (new system_internal "id required"))
  existing ← RoomStore.get r.id
  stored ← RoomStore.update (merged r existing) now
  pure (to_service_room stored)

unfoldable pub set_status : String → String → Time → Method (Unit {0})
unfolding RoomStore.set_status new
set_status id status now =
    if status == "live" || status == "offline" || status == "banned"
    then RoomStore.set_status id status now
    else fail (app (new system_internal (append "invalid status: " status)))

unfoldable pub rotate_stream_key : RoomService → String → Time → Time → Method String
unfolding derive_stream_key RoomStore.set_stream_key
rotate_stream_key s id now later = do
  let key = derive_stream_key s id now
  RoomStore.set_stream_key id key now later
  pure key
