-- ===== src/DeviceStore.antt =====
-- The in-process store of devices, memoryStore of go/services/device-svc/internal/store/store.go.
mod Tests
use yunmao.Base.{
  ℕ, String, append, Bool, true, not, ◌&&◌, ◌||◌, Option, none, some, ltb, nat_eq, length,
  if◌then◌else◌, ℤ, pos, pos_part, ltb_ℤ, Fallible, returns, fails, Action, List, [], ◌∷◌, ◌==◌,
  Dict, lookup, insert, Time, zero_time,
}
use yunmao.Errors.{GoError, app, plain, new, device_unbound}
use yunmao.FeatureFlags.{Json}

pub record Device : Type 0 where
  pub id : String
  pub room_id : String
  pub owner_id : String
  pub device_type : String
  pub hardware_model : String
  pub firmware_version : String
  pub firmware_target : String
  pub certificate_id : String
  pub online_status : String
  pub last_seen_at : Time
  pub remaining_food_grams : ℕ  -- uint32
  pub health_status : String
  pub mqtt_username : String
  pub mqtt_credential_hash : String
  pub mqtt_credential_expires_at : Time
  pub capability : Option (Dict Json)  -- `none` is the nil map
  pub region_id : String
  pub created_at : Time
  pub updated_at : Time

pub record ListFilter : Type 0 where
  pub owner_id : String
  pub room_id : String
  pub region_id : String
  pub status : String
  pub limit : ℤ
  pub offset : ℤ

abbrev pub MemoryStore : Type 0
MemoryStore = Dict Device

abbrev pub Method : Type 0 → Type 0
Method A = Action MemoryStore GoError A

unfoldable pub not_found : GoError
unfolding new
not_found = app (new device_unbound "device not found")

-- HashPassword; `sha256_hex` is the hexadecimal text of the SHA-256 sum of a text.
unfoldable pub hash_password : (String → String) → String → String → String
hash_password sha256_hex username password =
    if password == "" then "" else sha256_hex (append username (append ":" password))

unfoldable pub demo_device : Time → Device
demo_device now = record {
  id = "dev_demo";
  room_id = "room_demo";
  owner_id = "usr_demo";
  device_type = "feeder";
  hardware_model = "demo-feeder-v1";
  firmware_version = "1.0.0";
  firmware_target = "";
  certificate_id = "";
  online_status = "online";
  last_seen_at = now;
  remaining_food_grams = 1000;
  health_status = "ok";
  mqtt_username = "";
  mqtt_credential_hash = "";
  mqtt_credential_expires_at = zero_time;
  capability = none;
  region_id = "global";
  created_at = now;
  updated_at = now;
}

unfoldable pub new_memory_store : Time → MemoryStore
unfolding demo_device
new_memory_store now = ("dev_demo", demo_device now) ∷ []

unfoldable pub get : String → Method Device
unfolding not_found
get id m = elim (lookup id m) [ none ↦ (fails not_found, m) | some d ↦ (returns d, m) ]

-- Create also stamps the device of its caller, which it returns.
unfoldable pub create : Device → Time → Method Device
create d now m =
    if d.id == ""
    then (fails (plain "device.id required"), m)
    else (let d' = record d {
      created_at = if nat_eq d.created_at zero_time then now else d.created_at;
      updated_at = now;
    } in
        (returns d', insert d.id d' m))

unfoldable pub update : Device → Time → Method Device
unfolding not_found
update d now m =
    if d.id == "" then (fails (plain "device.id required"), m) else elim (lookup d.id m) [
      | none ↦ (fails not_found, m)
      | some existing ↦
          let d' = record d { created_at = existing.created_at; updated_at = now } in
          (returns d', insert d.id d' m)
    ]

-- A test of List: an empty wish is met by every value.
abbrev meets : String → String → Bool
meets wish value = wish == "" || value == wish

unfoldable pub passes : ListFilter → Device → Bool
passes f d =
    meets f.owner_id d.owner_id
    && meets f.room_id d.room_id
    && meets f.region_id d.region_id
    && meets f.status d.online_status

unfoldable pub passing : ListFilter → MemoryStore → List Device
unfolding passes
passing f [] = []
passing f ((_, d) ∷ m) = let rest = passing f m in if passes f d then d ∷ rest else rest

-- `out[:n]`
unfoldable pub take {ℓ} : {A : Type ℓ} → ℕ → List A → List A
take ℕ.zero xs = []
take (ℕ.suc n) [] = []
take (ℕ.suc n) (x ∷ xs) = x ∷ take n xs

-- The memory store does not read the offset.
unfoldable pub list : ListFilter → MemoryStore → List Device
unfolding passing take
list f m =
    let out = passing f m in
    if ltb_ℤ (pos 0) f.limit && ltb (pos_part f.limit) (length out)
    then take (pos_part f.limit) out
    else out

-- A write to the device that is stored, through its pointer.
unfoldable pub change : String → (Device → Device) → Method (Unit {0})
unfolding not_found
change id f m = elim (lookup id m) [
  | none ↦ (fails not_found, m)
  | some d ↦ (returns tt, insert id (f d) m)
]

unfoldable pub set_status : String → String → Time → Method (Unit {0})
unfolding change
set_status id status now = change id λ d. record d { online_status = status; updated_at = now }

unfoldable pub mark_online : String → ℕ → Time → Method (Unit {0})
unfolding change
mark_online id remaining at = change id λ d. record d {
  online_status = "online";
  last_seen_at = at;
  remaining_food_grams = if ltb 0 remaining then remaining else d.remaining_food_grams;
  updated_at = at;
}

unfoldable pub bind_room : String → String → Time → Method (Unit {0})
unfolding change
bind_room id room now = change id λ d. record d { room_id = room; updated_at = now }

unfoldable pub unbind_room : String → Time → Method (Unit {0})
unfolding change
unbind_room id now = change id λ d. record d { room_id = ""; updated_at = now }

unfoldable pub set_mqtt_credential :
    (String → String) → String → String → String → Time → Time → Method (Unit {0})
unfolding change hash_password
set_mqtt_credential sha256_hex id username password expires now = change id λ d. record d {
  mqtt_username = username;
  mqtt_credential_hash = hash_password sha256_hex username password;
  mqtt_credential_expires_at = expires;
  updated_at = now;
}

unfoldable pub set_firmware_target : String → String → Time → Method (Unit {0})
unfolding change
set_firmware_target id target now =
    change id λ d. record d { firmware_target = target; updated_at = now }
