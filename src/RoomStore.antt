-- ===== src/RoomStore.antt =====
-- The in-process store of rooms, memoryStore of go/services/room-svc/internal/store/store.go.
use yunmao.Base.{
  ℕ, String, Bool, ◌&&◌, ◌||◌, none, some, ltb, nat_eq, length, if◌then◌else◌, ℤ, pos, pos_part,
  ltb_ℤ, returns, fails, Action, List, [], ◌∷◌, ◌==◌, Dict, lookup, insert, Time, zero_time,
}
use yunmao.Errors.{GoError, app, plain, new, room_not_found}
use yunmao.DeviceStore.{take}

pub record Room : Type 0 where
  pub id : String
  pub cat_id : String
  pub device_id : String
  pub owner_id : String
  pub display_name : String
  pub description : String
  pub city : String
  pub region_id : String
  pub visibility : String
  pub live_status : String
  pub feeding_status : String
  pub status : String
  pub feed_cooldown_seconds : ℕ  -- uint32
  pub no_feed_window_start : String
  pub no_feed_window_end : String
  pub stream_key : String
  pub stream_key_rotated_at : Time
  pub cat_ids : List String
  pub created_at : Time
  pub updated_at : Time

pub record ListFilter : Type 0 where
  pub owner_id : String
  pub region_id : String
  pub status : String
  pub limit : ℤ
  pub offset : ℤ

abbrev pub MemoryStore : Type 0
MemoryStore = Dict Room

abbrev pub Method : Type 0 → Type 0
Method A = Action MemoryStore GoError A

unfoldable pub not_found : GoError
unfolding new
not_found = app (new room_not_found "room not found")

unfoldable pub new_memory_store : Time → MemoryStore
new_memory_store now =
    (
      "room_demo",
      record {
        id = "room_demo";
        cat_id = "cat_demo";
        device_id = "dev_demo";
        owner_id = "usr_demo";
        display_name = "示例房间";
        description = "";
        city = "上海";
        region_id = "global";
        visibility = "public";
        live_status = "online";
        feeding_status = "open";
        status = "live";
        feed_cooldown_seconds = 30;
        no_feed_window_start = "";
        no_feed_window_end = "";
        stream_key = "";
        stream_key_rotated_at = zero_time;
        cat_ids = "cat_demo" ∷ [];
        created_at = now;
        updated_at = now;
      },
    )
    ∷ []

unfoldable pub get : String → Method Room
unfolding not_found
get id m = elim (lookup id m) [ none ↦ (fails not_found, m) | some r ↦ (returns r, m) ]

unfoldable pub create : Room → Time → Method Room
create r now m =
    if r.id == ""
    then (fails (plain "room.id required"), m)
    else (let r' = record r {
      created_at = if nat_eq r.created_at zero_time then now else r.created_at;
      updated_at = now;
    } in
        (returns r', insert r.id r' m))

unfoldable pub update : Room → Time → Method Room
unfolding not_found
update r now m =
    if r.id == "" then (fails (plain "room.id required"), m) else elim (lookup r.id m) [
      | none ↦ (fails not_found, m)
      | some existing ↦
          let r' = record r { created_at = existing.created_at; updated_at = now } in
          (returns r', insert r.id r' m)
    ]

-- A test of List: an empty wish is met by every value.
abbrev meets : String → String → Bool
meets wish value = wish == "" || value == wish

unfoldable pub passes : ListFilter → Room → Bool
passes f r = meets f.owner_id r.owner_id && meets f.region_id r.region_id && meets f.status r.status

unfoldable pub passing : ListFilter → MemoryStore → List Room
unfolding passes
passing f [] = []
passing f ((_, r) ∷ m) = let rest = passing f m in if passes f r then r ∷ rest else rest

-- The memory store does not read the offset.
unfoldable pub list : ListFilter → MemoryStore → List Room
unfolding passing take
list f m =
    let out = passing f m in
    if ltb_ℤ (pos 0) f.limit && ltb (pos_part f.limit) (length out)
    then take (pos_part f.limit) out
    else out

unfoldable pub map_status_to_live : String → String
map_status_to_live status = if status == "live" then "online" else "offline"

unfoldable pub set_status : String → String → Time → Method (Unit {0})
unfolding not_found map_status_to_live
set_status id status now m = elim (lookup id m) [
  | none ↦ (fails not_found, m)
  | some r ↦ (
    returns tt,
    insert id
        (record r { status = status; live_status = map_status_to_live status; updated_at = now }) m,
  )
]

unfoldable pub set_stream_key : String → String → Time → Time → Method (Unit {0})
unfolding not_found
set_stream_key id key rotated_at now m = elim (lookup id m) [
  | none ↦ (fails not_found, m)
  | some r ↦ (
    returns tt,
    insert id (record r { stream_key = key; stream_key_rotated_at = rotated_at; updated_at = now })
        m,
  )
]
