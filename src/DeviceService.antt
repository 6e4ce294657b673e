-- ===== src/DeviceService.antt =====
-- The device service over the in-process store, go/services/device-svc/internal/service/service.go:
-- registration, merging updates, room bindings and states. The key provider and
-- the JWT library are part of the configuration.
pub mod Invariant
pub mod Issuing
pub mod Credentials
pub mod Merging
mod Tests
use yunmao.Base.{
  ℕ, String, append, Bool, true, false, ◌||◌, ◌&&◌, leb_ℤ, Option, none, some, if◌then◌else◌, ℤ,
  pos, ◌-ℤ◌, Fallible, returns, fails, Action, pure, fail, fail_if, ◌>>=◌, ◌>>◌, List, [], ◌∷◌, map,
  ◌==◌, Dict, Time, Duration, zero_time, add_time, second, ◌*◌, ◌/◌,
}
use yunmao.Errors.{GoError, app, plain, new, system_internal, system_dependency_unavailable}
use yunmao.FeatureFlags.{Json}
use yunmao.DeviceStore.{MemoryStore, Method, ListFilter}
use yunmao.DeviceStore

pub record Device : Type 0 where
  pub id : String
  pub room_id : String
  pub owner_id : String
  pub device_type : String
  pub hardware_model : String
  pub firmware_version : String
  pub firmware_target : String
  pub online_status : String
  pub last_seen_at : Time
  pub remaining_food_grams : ℕ  -- uint32
  pub health_status : String
  pub region_id : String
  pub mqtt_username : String
  pub mqtt_expires_at : Time
  pub capability : Option (Dict Json)
  pub created_at : Time

-- The key's material is used by the signature only; `remote` says that it is a RemoteSigner.
pub data Alg : Type 0 where
  hs256 rs256 : Alg
  other : String → Alg

pub record SigningKey : Type 0 where
  pub kid : String
  pub alg : Alg
  pub remote : Bool

pub record Claims : Type 0 where
  pub sub : String
  pub iss : String
  pub aud : String
  pub iat : ℤ
  pub exp : ℤ
  pub scope : String
  pub jti : String

-- `active` is what the key provider returns, `none` if there is no provider; `sign` is SignedString
-- of the JWT library, with the key; `sha256_hex` is the SHA-256 sum as hexadecimal text.
pub record DeviceService : Type 0 where
  pub active : Option (Fallible GoError SigningKey)
  pub sign : SigningKey → Claims → Fallible GoError String
  pub sha256_hex : String → String
  pub cred_ttl : Duration
  pub issuer : String
  pub audience : String
  pub region_id : String

-- `s` with a default for the empty text.
abbrev or_default : String → String → String
or_default s d = if s == "" then d else s

-- `New`, over a store that is given.
unfoldable pub new_service : DeviceService → DeviceService
new_service cfg = record cfg {
  cred_ttl =
      if leb_ℤ cfg.cred_ttl (pos 0) && leb_ℤ (pos 0) cfg.cred_ttl
      then pos (43200 * second)
      else cfg.cred_ttl;
  issuer = or_default cfg.issuer "yunmao.device-svc";
  audience = or_default cfg.audience "yunmao.emqx";
  region_id = or_default cfg.region_id "global";
}

unfoldable pub to_service_device : DeviceStore.Device → Device
to_service_device d = record {
  id = d.id;
  room_id = d.room_id;
  owner_id = d.owner_id;
  device_type = d.device_type;
  hardware_model = d.hardware_model;
  firmware_version = d.firmware_version;
  firmware_target = d.firmware_target;
  online_status = d.online_status;
  last_seen_at = d.last_seen_at;
  remaining_food_grams = d.remaining_food_grams;
  health_status = d.health_status;
  region_id = d.region_id;
  mqtt_username = d.mqtt_username;
  mqtt_expires_at = d.mqtt_credential_expires_at;
  capability = d.capability;
  created_at = d.created_at;
}

unfoldable pub to_store_device : Device → DeviceStore.Device
to_store_device d = record {
  id = d.id;
  room_id = d.room_id;
  owner_id = d.owner_id;
  device_type = d.device_type;
  hardware_model = d.hardware_model;
  firmware_version = d.firmware_version;
  firmware_target = d.firmware_target;
  certificate_id = "";
  online_status = d.online_status;
  last_seen_at = d.last_seen_at;
  remaining_food_grams = d.remaining_food_grams;
  health_status = d.health_status;
  mqtt_username = d.mqtt_username;
  mqtt_credential_hash = "";
  mqtt_credential_expires_at = d.mqtt_expires_at;
  capability = d.capability;
  region_id = d.region_id;
  created_at = d.created_at;
  updated_at = zero_time;
}

unfoldable pub get : String → Method Device
unfolding to_service_device DeviceStore.get
get id = do d ← DeviceStore.get id; pure (to_service_device d)

unfoldable pub list : ListFilter → MemoryStore → List Device
unfolding DeviceStore.list to_service_device
list f m = map to_service_device (DeviceStore.list f m)

-- The defaults of Register; `new_id` is what ids.New returns.
unfoldable pub registered : DeviceService → Device → String → Time → Device
registered s d new_id now = record d {
  id = or_default d.id new_id;
  device_type = or_default d.device_type "feeder";
  region_id = or_default d.region_id s.region_id;
  online_status = or_default d.online_status "offline";
  health_status = or_default d.health_status "unknown";
  created_at = now;
  last_seen_at = now;
}

-- `later` is the clock that the store reads.
unfoldable pub register : DeviceService → Device → String → Time → Time → Method Device
unfolding registered to_store_device DeviceStore.create new
register s d new_id now later = do
  fail_if (d.hardware_model == "") (app (new system_internal "hardware_model required"))
  let d' = registered s d new_id now
  _ ← DeviceStore.create (to_store_device d') later
  pure d'

-- `if wish != "" { field = wish }`
abbrev pub wish_or : String → String → String
wish_or wish old = if wish == "" then old else wish

abbrev pub capability_or : Option (Dict Json) → Option (Dict Json) → Option (Dict Json)
capability_or none old = old
capability_or (some c) old = some c

unfoldable pub merged : Device → DeviceStore.Device → DeviceStore.Device
merged d existing = record existing {
  room_id = wish_or d.room_id existing.room_id;
  owner_id = wish_or d.owner_id existing.owner_id;
  device_type = wish_or d.device_type existing.device_type;
  hardware_model = wish_or d.hardware_model existing.hardware_model;
  firmware_version = wish_or d.firmware_version existing.firmware_version;
  firmware_target = wish_or d.firmware_target existing.firmware_target;
  online_status = wish_or d.online_status existing.online_status;
  health_status = wish_or d.health_status existing.health_status;
  region_id = wish_or d.region_id existing.region_id;
  capability = capability_or d.capability existing.capability;
}

unfoldable pub update : Device → Time → Method Device
unfolding merged DeviceStore.get DeviceStore.update to_service_device new
update d now = do
  fail_if (d.id == "") (app (new system_internal "id required"))
  existing ← DeviceStore.get d.id
  stored ← DeviceStore.update (merged d existing) now
  pure (to_service_device stored)

unfoldable pub bind_room : String → String → Time → Method (Unit {0})
unfolding DeviceStore.bind_room new
bind_room id room now = do
  fail_if (room == "") (app (new system_internal "room_id required"))
  DeviceStore.bind_room id room now

unfoldable pub unbind_room : String → Time → Method (Unit {0})
unfolding DeviceStore.unbind_room
unbind_room id now = DeviceStore.unbind_room id now

unfoldable pub is_status : String → Bool
is_status s = s == "online" || s == "offline" || s == "error"

unfoldable pub set_status : String → String → Time → Method (Unit {0})
unfolding is_status DeviceStore.set_status new
set_status id status now =
    if is_status status
    then DeviceStore.set_status id status now
    else fail (app (new system_internal (append "invalid status: " status)))

unfoldable pub update_firmware : String → String → Time → Method (Unit {0})
unfolding DeviceStore.set_firmware_target new
update_firmware id target now = do
  fail_if (target == "") (app (new system_internal "target required"))
  DeviceStore.set_firmware_target id target now

-- An error of the store is dropped.
unfoldable pub mark_online : String → ℕ → Time → MemoryStore → MemoryStore
unfolding DeviceStore.mark_online
mark_online id remaining now m = (DeviceStore.mark_online id remaining now m).1

unfoldable pub heartbeat_at : String → Time → MemoryStore → MemoryStore
unfolding DeviceStore.mark_online
heartbeat_at id at m = (DeviceStore.mark_online id 0 at m).1
