-- ===== src/Idempotent/Retention.antt =====
-- What the idempotency cache answers: a key is new once, until its entry expires.
use yunmao.Base.{
  ◌<◌, String, ◌≡◌, refl, true, false, Option, none, some, List, [], ◌∷◌, ◌++◌, arith, pos, ◌≤ℤ◌,
  ◌<ℤ◌, lookup, lookup-erase, lookup-insert_self, length, Time, Duration, add_time, Bool-cases,
  Option-cases, inl, inr, ◌⊎◌, not, nat_eq,
}
use yunmao.Idempotent.Elements.{Element, id_of}
use yunmao.Idempotent.{
  Cache, Entry, new_entry, evict_front, evict, push, drop_entry, is_live, insert_found, insert_key,
  has,
}
use yunmao.Idempotent.Invariant.{Inv, absent, drop_entry-IsLinked, drop_entry_bounded}

evict_front_keeps :
    (c : Cache) (k : String) (x : Element) (keys rest : List Element) (e : Entry)
    → id_of k (x ∷ keys) ≡ none
    → lookup k c.m ≡ some e
    → lookup k (evict_front c (x ∷ keys ++ rest)).m ≡ some e
unfolding evict_front id_of
evict_front_keeps c k x keys rest e a h = ground (arith, lookup-erase x.value k c.m)

-- The eviction that follows a push never takes the key that was pushed.
evict-push_keeps :
    (c : Cache) (k : String) (now : Time) (keys : List Element)
    → c.keys ≡ keys
    → id_of k keys ≡ none
    → (pos 0 <ℤ c.capacity → pos (length keys) ≤ℤ c.capacity)
    → lookup k (evict (push c k now)).m ≡ some (new_entry c k now)
unfolding evict push
evict-push_keeps c k now [] e a h = ground (arith, lookup-insert_self k (new_entry c k now) c.m)
evict-push_keeps c k now (x ∷ keys) e a h = ground (
  arith,
  lookup-insert_self k (new_entry c k now) c.m,
  evict_front_keeps (push c k now) k x keys (record { id = c.next_id; value = k } ∷ [])
      (new_entry c k now) a,
)

evict_front-ttl : (c : Cache) (keys : List Element) → (evict_front c keys).ttl ≡ c.ttl
unfolding evict_front
evict_front-ttl c [] = refl
evict_front-ttl c (x ∷ keys) = refl

evict-push-ttl : (c : Cache) (k : String) (now : Time) → (evict (push c k now)).ttl ≡ c.ttl
unfolding evict push
evict-push-ttl c k now = ground (arith, evict_front-ttl (push c k now) (push c k now).keys)

-- The entry that stands for a key after a call which reported it as new.
insert_found_keeps :
    (c : Cache) (k : String) (now : Time) (o : Option Entry)
    → lookup k c.m ≡ o
    → Inv c
    → (insert_found c k now o).1 ≡ true
    → (e : Entry) × (lookup k (insert_found c k now o).0.m ≡ some e)
      × (e.expire_at ≡ (new_entry c k now).expire_at)
      × ((insert_found c k now o).0.ttl ≡ c.ttl)
unfolding insert_found
insert_found_keeps c k now none q v h = (
  new_entry c k now,
  evict-push_keeps c k now c.keys refl (absent c k v.links q) v.bounded,
  refl,
  evict-push-ttl c k now,
)
insert_found_keeps c k now (some x) q v h = elim (Bool-cases (is_live c x now)) [
  | inl live ↦ cc (rw live at h)
  | inr dead ↦
      let d = drop_entry c k x.elem in
      let gone = drop_entry-IsLinked c k x.elem v.links (ground (arith, v.linked k)) in
      rw dead (
        new_entry d k now,
        evict-push_keeps d k now d.keys refl gone.1 (drop_entry_bounded c k x.elem v.bounded),
        refl,
        evict-push-ttl d k now,
      )
]

-- An instant at which an entry that was written at `now` is still valid.
abbrev pub IsFresh : Duration → Time → Time → Type 0
IsFresh ttl now later = (ttl ≡ pos 0) ⊎ ((pos 0 <ℤ ttl) × (later < add_time now ttl))

fresh_live :
    (c c' : Cache) (k : String) (now later : Time) (e : Entry)
    → c'.ttl ≡ c.ttl
    → e.expire_at ≡ (new_entry c k now).expire_at
    → IsFresh c.ttl now later
    → is_live c' e later ≡ true
unfolding new_entry
fresh_live c c' k now later e t d (inl z) = ground arith
fresh_live c c' k now later e t d (inr (p, q)) = ground arith

refused :
    (c : Cache) (k : String) (e : Entry) (now : Time)
    → lookup k c.m ≡ some e
    → is_live c e now ≡ true
    → insert_key c k now ≡ (c, false)
unfolding insert_key insert_found
refused c k e now found live = ground arith

-- After a call that reported a key as new, a second call with the key is refused and changes
-- nothing, as long as the TTL has not run out; in particular the eviction never takes the new key.
pub insert_key_twice :
    (c : Cache) (k : String) (now later : Time)
    → Inv c
    → (insert_key c k now).1 ≡ true
    → IsFresh c.ttl now later
    → insert_key (insert_key c k now).0 k later ≡ ((insert_key c k now).0, false)
unfolding insert_key
insert_key_twice c k now later v h fresh =
    let (e, found, deadline, ttl) = insert_found_keeps c k now (lookup k c.m) refl v h in
    refused (insert_found c k now (lookup k c.m)).0 k e later found
      (fresh_live c (insert_found c k now (lookup k c.m)).0 k now later e ttl deadline fresh)

refused_found :
    (c : Cache) (k : String) (now : Time) (o : Option Entry)
    → lookup k c.m ≡ o
    → (insert_found c k now o).1 ≡ false
    → ((insert_found c k now o).0 ≡ c)
      × ((e : Entry) × (lookup k c.m ≡ some e) × (is_live c e now ≡ true))
unfolding insert_found
refused_found c k now none q h = cc
refused_found c k now (some e) q h = elim (Bool-cases (is_live c e now)) [
  | inl live ↦ (rw live, (e, q, live))
  | inr dead ↦ cc (rw dead at h)
]

-- A call that does not report a key as new found a valid entry, and changes nothing.
pub insert_key_refused :
    (c : Cache) (k : String) (now : Time)
    → (insert_key c k now).1 ≡ false
    → ((insert_key c k now).0 ≡ c)
      × ((e : Entry) × (lookup k c.m ≡ some e) × (is_live c e now ≡ true))
unfolding insert_key
insert_key_refused c k now h = refused_found c k now (lookup k c.m) refl h

-- `Has` and `Insert` agree on every key, but for the one instant at which an entry expires: there
-- `Has` still finds the key while `Insert` takes it as new.
pub has-insert_key :
    (c : Cache) (k : String) (now : Time)
    → pos 0 ≤ℤ c.ttl
    → (has c k now ≡ not (insert_key c k now).1)
      ⊎ ((e : Entry) × (lookup k c.m ≡ some e)
          × (now ≡ e.expire_at)
          × (has c k now ≡ true)
          × ((insert_key c k now).1 ≡ true))
unfolding insert_key insert_found has
has-insert_key c k now h = elim (Option-cases (lookup k c.m)) [
  | inl gone ↦ inl (ground arith)
  | inr (e, found) ↦ elim (Bool-cases (is_live c e now)) [
    | inl live ↦ inl (ground arith)
    | inr dead ↦ elim (Bool-cases (nat_eq now e.expire_at)) [
      | inl now_due ↦ inr (e, found, ground arith, ground arith, ground arith)
      | inr past ↦ inl (ground arith)
    ]
  ]
]
