-- ===== src/Idempotent.antt =====
-- The in-process idempotency cache, go/pkg/yunmao/idempotent/idempotent.go. The clock's reading is
-- an argument of each call.
pub mod Elements
pub mod Invariant
pub mod Retention
mod Tests
use yunmao.Base.{
  ℕ, zero, suc, ◌+◌, String, ◌≡◌, Bool, true, false, ◌&&◌, ◌||◌, not, Option, none, some, List, [],
  ◌∷◌, ◌++◌, ltb, if◌then◌else◌, ◌==◌, ℤ, pos, ltb_ℤ, leb_ℤ, Dict, lookup, insert, erase, length,
  Time, Duration, zero_time, before, after, add_time,
}
use Elements.{Element, remove_id}

pub record Entry : Type 0 where
  pub key : String
  pub expire_at : Time
  pub elem : ℕ

-- `keys` is the list from front to back. Go's *list.Element is the element's number;
-- `next_id` numbers the element that PushBack allocates next.
pub record Cache : Type 0 where
  pub capacity : ℤ
  pub ttl : Duration
  pub keys : List Element
  pub next_id : ℕ
  pub m : Dict Entry

pub new_cache : ℤ → Duration → Cache
new_cache capacity ttl = record { capacity = capacity; ttl = ttl; keys = []; next_id = 0; m = [] }

-- `c.ttl == 0`
abbrev is_zero : Duration → Bool
is_zero d = leb_ℤ d (pos 0) && leb_ℤ (pos 0) d

-- The eviction at the end of Insert: the front of the list and its map entry go.
pub evict_front : Cache → List Element → Cache
evict_front c [] = c
evict_front c (front ∷ rest) = record c { keys = rest; m = erase front.value c.m }

pub evict : Cache → Cache
unfolding evict_front
evict c =
    if ltb_ℤ (pos 0) c.capacity && ltb_ℤ c.capacity (pos (length c.keys))
    then evict_front c c.keys
    else c

-- `&entry{...}` with the deadline that Insert computes; without a TTL it is the zero Time.
pub new_entry : Cache → String → Time → Entry
new_entry c k now = record {
  key = k;
  expire_at = if ltb_ℤ (pos 0) c.ttl then add_time now c.ttl else zero_time;
  elem = c.next_id;
}

-- PushBack and the new map entry.
pub push : Cache → String → Time → Cache
unfolding new_entry
push c k now = record c {
  keys = c.keys ++ record { id = c.next_id; value = k } ∷ [];
  next_id = suc c.next_id;
  m = insert k (new_entry c k now) c.m;
}

-- The removal of an expired entry.
pub drop_entry : Cache → String → ℕ → Cache
drop_entry c k i = record c { keys = remove_id i c.keys; m = erase k c.m }

-- Whether an entry still stands at an instant.
abbrev pub is_live : Cache → Entry → Time → Bool
is_live c e now = is_zero c.ttl || before now e.expire_at

pub insert_found : Cache → String → Time → Option Entry → Cache × Bool
unfolding push evict drop_entry
insert_found c k now none = (evict (push c k now), true)
insert_found c k now (some e) =
    if is_live c e now then (c, false) else (evict (push (drop_entry c k e.elem) k now), true)

-- `Insert`: the new cache, and whether the key is seen for the first time.
pub insert_key : Cache → String → Time → Cache × Bool
unfolding insert_found
insert_key c k now = insert_found c k now (lookup k c.m)

pub has : Cache → String → Time → Bool
has c k now = elim (lookup k c.m) [
  | none ↦ false
  | some e ↦ not (ltb_ℤ (pos 0) c.ttl && after now e.expire_at)
]
