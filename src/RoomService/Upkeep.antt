-- ===== src/RoomService/Upkeep.antt =====
-- What holds of every room that is stored, over any history of calls.
use mathlib.Core.Path.{subst}
use yunmao.Base.{
  String, ◌≡◌, ◌≢◌, refl, sym, arith, inl, inr, true, false, ◌||◌, some, Bool-cases, Option-cases,
  if◌then◌else◌, nat_eq, ◌==◌, lookup, insert, lookup-insert, eq_of_==, ne_of_==, Time,
}
use yunmao.RoomStore.{MemoryStore, map_status_to_live}
use yunmao.RoomStore
use yunmao.DeviceService.{wish_or}
use yunmao.RoomService.{
  RoomService, Room, create, created, update, merged, set_status, rotate_stream_key, to_store_room,
  derive_stream_key,
}

-- A room that is stored under its number, with its states set and a cooldown.
abbrev pub Complete : String → RoomStore.Room → Type 0
Complete k r =
    (r.id ≡ k)
    × (r.visibility ≢ "")
    × (r.live_status ≢ "")
    × (r.feeding_status ≢ "")
    × (r.status ≢ "")
    × (r.feed_cooldown_seconds ≢ 0)

abbrev pub AllComplete : MemoryStore → Type 0
AllComplete m = (k : String) (r : RoomStore.Room) → lookup k m ≡ some r → Complete k r

insert-AllComplete :
    (id : String) (x : RoomStore.Room) (m : MemoryStore)
    → AllComplete m
    → Complete id x
    → AllComplete (insert id x m)
insert-AllComplete id x m all c k r found = elim (Bool-cases (id == k)) [
  | inl e ↦
      let same : x ≡ r = ground (arith, found, lookup-insert id k x m, e) in
      subst (λ y. Complete k y) same (subst (λ y. Complete y x) (eq_of_== id k e) c)
  | inr n ↦ all k r (ground (arith, found, lookup-insert id k x m, n))
]

abbrev or_default : String → String → String
or_default s d = if s == "" then d else s

or_default_full : (s d : String) → d ≢ "" → or_default s d ≢ ""
or_default_full s d h = elim (Bool-cases (s == "")) [
  | inl e ↦ rw e h
  | inr n ↦ rw n (ne_of_== s "" n)
]

wish_or_full : (w o : String) → o ≢ "" → wish_or w o ≢ ""
wish_or_full w o h = or_default_full w o h

same_store : (m m' : MemoryStore) → m ≡ m' → AllComplete m' → AllComplete m
same_store m m' e all = subst AllComplete (sym e) all

-- What the store's Create writes.
abbrev stamped : RoomStore.Room → Time → RoomStore.Room
stamped x later = record x {
  created_at = if nat_eq x.created_at 0 then later else x.created_at;
  updated_at = later;
}

live_full : (status : String) → map_status_to_live status ≢ ""
unfolding map_status_to_live
live_full status = elim (Bool-cases (status == "live")) [
  | inl e ↦ rw e (ne_of_== "online" "" refl)
  | inr n ↦ rw n (ne_of_== "offline" "" refl)
]

status_full :
    (status : String)
    → (status == "live" || status == "offline" || status == "banned") ≡ true
    → status ≢ ""
status_full status h e = absurd (ne_of_== status "" (full status h) e)
  where
    full :
        (t : String) → (t == "live" || t == "offline" || t == "banned") ≡ true → (t == "") ≡ false
    full t q = elim (Bool-cases (t == "")) [
      | inl z ↦
          cc (
            subst (λ u. (u == "live" || u == "offline" || u == "banned") ≡ true) (eq_of_== t "" z)
              q)
      | inr z ↦ z
    ]

module _ (s : RoomService) where
  created-Complete :
      (r : Room) (new_id : String) (now later : Time)
      → let x = to_store_room (created s r new_id now) in
        Complete x.id (record x {
          created_at = if nat_eq x.created_at 0 then later else x.created_at;
          updated_at = later;
        })
  unfolding created to_store_room
  created-Complete r new_id now later = (
    refl,
    or_default_full r.visibility "public" (ne_of_== "public" "" refl),
    or_default_full r.live_status "offline" (ne_of_== "offline" "" refl),
    or_default_full r.feeding_status "closed" (ne_of_== "closed" "" refl),
    or_default_full r.status "offline" (ne_of_== "offline" "" refl),
    λ e. ground arith,
  )

  create-AllComplete :
      (r : Room) (new_id : String) (now later : Time) (m : MemoryStore)
      → AllComplete m
      → AllComplete (create s r new_id now later m).1
  unfolding create RoomStore.create
  create-AllComplete r new_id now later m all =
      let x = to_store_room (created s r new_id now) in
      elim (Bool-cases (r.display_name == "")) [
        | inl e ↦ same_store _ m (ground arith) all
        | inr n ↦ elim (Bool-cases (x.id == "")) [
          | inl e ↦ same_store _ m (ground arith) all
          | inr n' ↦
              same_store _ (insert x.id (stamped x later) m) (ground arith)
                (insert-AllComplete x.id _ m all (created-Complete r new_id now later))
        ]
      ]

  merged-Complete :
      (r : Room) (old : RoomStore.Room) (k : String) (t t' : Time)
      → Complete k old
      → Complete (merged r old).id (record (merged r old) { created_at = t; updated_at = t' })
  unfolding merged
  merged-Complete r old k t t' (id, v, l, f, st, c) =
      (refl, wish_or_full r.visibility old.visibility v, l, f, st, λ e. c (ground arith))

  update-AllComplete :
      (r : Room) (now : Time) (m : MemoryStore) → AllComplete m → AllComplete (update r now m).1
  unfolding update RoomStore.get RoomStore.update
  update-AllComplete r now m all = elim (Bool-cases (r.id == "")) [
    | inl e ↦ same_store _ m (ground arith) all
    | inr n ↦ elim (Option-cases (lookup r.id m)) [
      | inl h ↦ same_store _ m (ground arith) all
      | inr (old, h) ↦ elim (Bool-cases ((merged r old).id == "")) [
        | inl e ↦ same_store _ m (ground arith) all
        | inr n' ↦ elim (Option-cases (lookup (merged r old).id m)) [
          | inl h' ↦ same_store _ m (ground arith) all
          | inr (there, h') ↦
              same_store _
                (insert (merged r old).id
                  (record (merged r old) { created_at = there.created_at; updated_at = now }) m)
                (ground arith)
                (insert-AllComplete (merged r old).id _ m all
                  (merged-Complete r old r.id there.created_at now (all r.id old h)))
        ]
      ]
    ]
  ]

  set_status-AllComplete :
      (id status : String) (now : Time) (m : MemoryStore)
      → AllComplete m
      → AllComplete (set_status id status now m).1
  unfolding set_status RoomStore.set_status map_status_to_live
  set_status-AllComplete id status now m all =
      elim (Bool-cases (status == "live" || status == "offline" || status == "banned")) [
        | inr n ↦ same_store _ m (ground arith) all
        | inl y ↦ elim (Option-cases (lookup id m)) [
          | inl h ↦ same_store _ m (ground arith) all
          | inr (r, h) ↦
              let (k, v, l, f, st, c) = all id r h in
              same_store _
                (insert id
                  (record r {
                    status = status;
                    live_status = map_status_to_live status;
                    updated_at = now;
                  })
                  m)
                (ground arith)
                (insert-AllComplete id _ m all (k, v, live_full status, f, status_full status y, c))
        ]
      ]

  rotate_stream_key-AllComplete :
      (id : String) (now later : Time) (m : MemoryStore)
      → AllComplete m
      → AllComplete (rotate_stream_key s id now later m).1
  unfolding rotate_stream_key RoomStore.set_stream_key
  rotate_stream_key-AllComplete id now later m all = elim (Option-cases (lookup id m)) [
    | inl h ↦ same_store _ m (ground arith) all
    | inr (r, h) ↦
        same_store _
          (insert id
            (record r {
              stream_key = derive_stream_key s id now;
              stream_key_rotated_at = now;
              updated_at = later;
            })
            m)
          (ground arith) (insert-AllComplete id _ m all (all id r h))
  ]

  -- The stores that calls lead to from one.
  pub data Reaches (m : MemoryStore) : MemoryStore → Type 0 where
    here : Reaches m m
    creates :
        {m1 : MemoryStore} (r : Room) (new_id : String) (now later : Time)
        → Reaches m m1
        → Reaches m (create s r new_id now later m1).1
    updates :
        {m1 : MemoryStore} (r : Room) (now : Time) → Reaches m m1 → Reaches m (update r now m1).1
    sets :
        {m1 : MemoryStore} (id status : String) (now : Time)
        → Reaches m m1
        → Reaches m (set_status id status now m1).1
    rotates :
        {m1 : MemoryStore} (id : String) (now later : Time)
        → Reaches m m1
        → Reaches m (rotate_stream_key s id now later m1).1

  -- After any history of calls, from a store of which this holds, every room is stored under its
  -- number, and its visibility, its live status, its feeding status, its status and its cooldown are
  -- set.
  pub Reaches-AllComplete : {m m' : MemoryStore} → AllComplete m → Reaches m m' → AllComplete m'
  Reaches-AllComplete all here = all
  Reaches-AllComplete all (creates r new_id now later p) =
      create-AllComplete r new_id now later _ (Reaches-AllComplete all p)
  Reaches-AllComplete all (updates r now p) = update-AllComplete r now _ (Reaches-AllComplete all p)
  Reaches-AllComplete all (sets id status now p) =
      set_status-AllComplete id status now _ (Reaches-AllComplete all p)
  Reaches-AllComplete all (rotates id now later p) =
      rotate_stream_key-AllComplete id now later _ (Reaches-AllComplete all p)
