-- ===== src/Idempotent/Invariant.antt =====
-- The list and the map of the idempotency cache stay in step, and the list stays within the
-- capacity; so a key is reported as new once, and again only when it expired or was evicted.
use yunmao.Base.{
  ℕ, suc, ◌+◌, ◌≤◌, ◌<◌, String, ◌≡◌, refl, ◌&&◌, Option, none, some, List, [], ◌∷◌, arith, eq_iff,
  eq_refl, ℤ, pos, pos_part, ◌≤ℤ◌, ◌<ℤ◌, Dict, lookup, erase, lookup-insert, lookup-erase, length,
  length-append, Time, Duration, Bool-cases, inl, inr, ltb_ℤ,
}
use yunmao.Idempotent.Elements.{
  Element, id_of, Rising, Rising-weaken, Rising-append, remove_id-Rising, IsDistinct,
  id_of-remove_id, remove_id-IsDistinct, id_of-append, append-IsDistinct, length-remove_id,
}
use yunmao.Idempotent.{
  Cache, Entry, new_cache, new_entry, evict_front, evict, push, drop_entry, is_live, insert_found,
  insert_key,
}

abbrev elem_of : Option Entry → Option ℕ
elem_of none = none
elem_of (some e) = some e.elem

-- The map's entries are the list's elements, each by its number, and no key stands twice.
pub record IsLinked (c : Cache) : Type 0 where
  pub rising : Rising 0 c.next_id c.keys
  pub distinct : IsDistinct c.keys
  pub linked : (k : String) → id_of k c.keys ≡ elem_of (lookup k c.m)

pub record Inv (c : Cache) : Type 0 where
  pub links : IsLinked c
  pub open links use *
  pub bounded : pos 0 <ℤ c.capacity → pos (length c.keys) ≤ℤ c.capacity

push-IsLinked :
    (c : Cache) (k : String) (now : Time)
    → IsLinked c
    → id_of k c.keys ≡ none
    → IsLinked (push c k now)
unfolding push
push-IsLinked c k now v free = record {
  rising = Rising-append 0 c.next_id c.keys k v.rising;
  distinct = append-IsDistinct k c.next_id c.keys v.distinct free;
  linked = λ j. ground (
    arith,
    v.linked j,
    id_of-append j k c.next_id c.keys free,
    lookup-insert k j (new_entry c k now) c.m,
  );
}

evict_linked :
    (front : Element) (rest : List Element) (m : Dict Entry) (j : String)
    → id_of front.value rest ≡ none
    → id_of j (front ∷ rest) ≡ elem_of (lookup j m)
    → id_of j rest ≡ elem_of (lookup j (erase front.value m))
unfolding id_of
evict_linked front rest m j gone e =
    ground (arith, eq_iff front.value j, lookup-erase front.value j m)

pub drop_entry-IsLinked :
    (c : Cache) (k : String) (i : ℕ)
    → IsLinked c
    → id_of k c.keys ≡ some i
    → IsLinked (drop_entry c k i) × (id_of k (drop_entry c k i).keys ≡ none)
unfolding drop_entry
drop_entry-IsLinked c k i v found = (
  record {
    rising = remove_id-Rising i 0 c.next_id c.keys v.rising;
    distinct = remove_id-IsDistinct k i 0 c.next_id c.keys v.rising v.distinct found;
    linked = λ j. ground (
      arith,
      v.linked j,
      id_of-remove_id k j i 0 c.next_id c.keys v.rising v.distinct found,
      lookup-erase k j c.m,
    );
  },
  rw (id_of-remove_id k k i 0 c.next_id c.keys v.rising v.distinct found) (simp eq_refl),
)

evict_front-IsLinked :
    (c : Cache) (keys : List Element) → c.keys ≡ keys → IsLinked c → IsLinked (evict_front c keys)
unfolding evict_front
evict_front-IsLinked c [] e v = v
evict_front-IsLinked c (front ∷ rest) e v =
    let rising : Rising 0 c.next_id (front ∷ rest) = rw e at v.rising in
    let distinct : IsDistinct (front ∷ rest) = rw e at v.distinct in
    record {
      rising = Rising-weaken 0 (suc front.id) c.next_id rest (omega arith) rising.1;
      distinct = distinct.1;
      linked = λ j. evict_linked front rest c.m j distinct.0 (rw e at (v.linked j));
    }

evict-IsLinked : (c : Cache) → IsLinked c → IsLinked (evict c)
unfolding evict
evict-IsLinked c v =
    elim (Bool-cases (ltb_ℤ (pos 0) c.capacity && ltb_ℤ c.capacity (pos (length c.keys)))) [
      | inl e ↦ rw e (evict_front-IsLinked c c.keys refl v)
      | inr e ↦ rw e v
    ]

-- A key that the map does not hold is on no element of the list.
pub absent : (c : Cache) (k : String) → IsLinked c → lookup k c.m ≡ none → id_of k c.keys ≡ none
absent c k v e = ground (arith, v.linked k)

insert_found-IsLinked :
    (c : Cache) (k : String) (now : Time) (o : Option Entry)
    → lookup k c.m ≡ o
    → IsLinked c
    → IsLinked (insert_found c k now o).0
unfolding insert_found
insert_found-IsLinked c k now none e v =
    evict-IsLinked (push c k now) (push-IsLinked c k now v (absent c k v e))
insert_found-IsLinked c k now (some x) e v =
    let (dropped, gone) = drop_entry-IsLinked c k x.elem v (ground (arith, v.linked k)) in
    let next = evict-IsLinked _ (push-IsLinked (drop_entry c k x.elem) k now dropped gone) in
    elim (Bool-cases (is_live c x now)) [ inl live ↦ rw live v | inr dead ↦ rw dead next ]

evict_front-length :
    (c : Cache) (keys : List Element)
    → 0 < length keys
    → length (evict_front c keys).keys + 1 ≡ length keys
unfolding evict_front
evict_front-length c [] h = absurd (omega arith)
evict_front-length c (x ∷ keys) h = omega arith

evict_front-capacity :
    (c : Cache) (keys : List Element) → (evict_front c keys).capacity ≡ c.capacity
unfolding evict_front
evict_front-capacity c [] = refl
evict_front-capacity c (x ∷ keys) = refl

-- One key more than the capacity is one key too many, and the front goes.
evict_bounded :
    (c : Cache)
    → (pos 0 <ℤ c.capacity → length c.keys ≤ pos_part c.capacity + 1)
    → pos 0 <ℤ (evict c).capacity
    → pos (length (evict c).keys) ≤ℤ (evict c).capacity
unfolding evict
evict_bounded c h = ground (arith, evict_front-length c c.keys, evict_front-capacity c c.keys)

push_bounded :
    (c : Cache) (k : String) (now : Time)
    → (pos 0 <ℤ c.capacity → pos (length c.keys) ≤ℤ c.capacity)
    → pos 0 <ℤ c.capacity
    → length (push c k now).keys ≤ pos_part c.capacity + 1
unfolding push
push_bounded c k now h p =
    ground (arith, length-append c.keys (record { id = c.next_id; value = k } ∷ []))

pub drop_entry_bounded :
    (c : Cache) (k : String) (i : ℕ)
    → (pos 0 <ℤ c.capacity → pos (length c.keys) ≤ℤ c.capacity)
    → pos 0 <ℤ c.capacity
    → pos (length (drop_entry c k i).keys) ≤ℤ c.capacity
unfolding drop_entry
drop_entry_bounded c k i h p = omega (arith, length-remove_id i c.keys, h p)

insert_found_bounded :
    (c : Cache) (k : String) (now : Time) (o : Option Entry)
    → (pos 0 <ℤ c.capacity → pos (length c.keys) ≤ℤ c.capacity)
    → let c' = (insert_found c k now o).0 in
      pos 0 <ℤ c'.capacity → pos (length c'.keys) ≤ℤ c'.capacity
unfolding insert_found
insert_found_bounded c k now none h = evict_bounded (push c k now) (push_bounded c k now h)
insert_found_bounded c k now (some e) h =
    let c' = drop_entry c k e.elem in
    let fewer : pos 0 <ℤ c.capacity → pos (length c'.keys) ≤ℤ c.capacity =
      drop_entry_bounded c k e.elem h in
    elim (Bool-cases (is_live c e now)) [
      | inl live ↦ rw live h
      | inr dead ↦ rw dead (evict_bounded (push c' k now) (push_bounded c' k now fewer))
    ]

-- Inserting keeps the list and the map in step and the list within the capacity.
pub insert_key-Inv : (c : Cache) (k : String) (now : Time) → Inv c → Inv (insert_key c k now).0
unfolding insert_key
insert_key-Inv c k now v = record {
  links = insert_found-IsLinked c k now (lookup k c.m) refl v.links;
  bounded = insert_found_bounded c k now (lookup k c.m) v.bounded;
}

-- A new cache holds nothing.
pub new_cache-Inv : (capacity : ℤ) (ttl : Duration) → Inv (new_cache capacity ttl)
unfolding new_cache id_of lookup
new_cache-Inv capacity ttl = record {
  links = record { rising = omega arith; distinct = tt; linked = λ k. refl };
  bounded = λ h. omega arith;
}
