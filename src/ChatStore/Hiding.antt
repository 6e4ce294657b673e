-- ===== src/ChatStore/Hiding.antt =====
-- A message that is neither published nor flagged is in no listing.
use yunmao.Base.{
  ℕ, suc, String, ◌≡◌, ◌≢◌, refl, sym, ap, ◌∙◌, arith, inl, inr, false, none, some, Bool-cases, ltb,
  length, List, [], ◌∷◌, ◌==◌, lookup, insert, lookup-insert, eq_of_==, ne_of_==, ==_comm,
}
use yunmao.DeviceStore.{take}
use yunmao.ChatStore.{Message, MemStore, is_shown, shown, place, sorted, store_list}

-- Every message is stored once and under its number.
abbrev pub Keyed : MemStore → Type 0
Keyed [] = Unit {0}
Keyed ((k, m) ∷ s) = (m.id ≡ k) × (lookup k s ≡ none) × Keyed s

abbrev pub Without : String → List Message → Type 0
Without id [] = Unit {0}
Without id (m ∷ ms) = (m.id ≢ id) × Without id ms

pub insert-Keyed : (m : Message) (s : MemStore) → Keyed s → Keyed (insert m.id m s)
unfolding insert lookup
insert-Keyed m [] h = (refl, refl, tt)
insert-Keyed m ((k, x) ∷ s) (same, new, h) = elim (Bool-cases (k == m.id)) [
  | inl e ↦ rw e (refl, rw (sym (eq_of_== k m.id e)) new, h)
  | inr n ↦
      rw n (same, lookup-insert m.id k m s ∙ rw (==_comm m.id k) (rw n new), insert-Keyed m s h)
]

shown-Without :
    (room id : String) (s : MemStore) → Keyed s → lookup id s ≡ none → Without id (shown room s)
unfolding shown lookup
shown-Without room id [] h e = tt
shown-Without room id ((k, m) ∷ s) (same, new, h) e =
    let other : (k == id) ≡ false = ground arith in
    let rest = shown-Without room id s h (ground arith) in
    elim (Bool-cases (is_shown room m)) [
      | inl y ↦ rw y ((λ q. ne_of_== k id other (sym same ∙ q)), rest)
      | inr n ↦ rw n rest
    ]

shown-insert :
    (room : String) (m : Message) (s : MemStore)
    → Keyed s
    → is_shown room m ≡ false
    → Without m.id (shown room (insert m.id m s))
unfolding shown insert lookup
shown-insert room m [] h hidden = rw hidden tt
shown-insert room m ((k, x) ∷ s) (same, new, h) hidden = elim (Bool-cases (k == m.id)) [
  | inl e ↦ rw e (rw hidden (shown-Without room m.id s h (rw (sym (eq_of_== k m.id e)) new)))
  | inr n ↦ rw n (elim (Bool-cases (is_shown room x)) [
    | inl y ↦ rw y ((λ q. ne_of_== k m.id n (sym same ∙ q)), shown-insert room m s h hidden)
    | inr z ↦ rw z (shown-insert room m s h hidden)
  ])
]

place-Without :
    (id : String) (m : Message) (xs : List Message)
    → m.id ≢ id
    → Without id xs
    → Without id (place m xs)
unfolding place
place-Without id m [] h w = (h, tt)
place-Without id m (x ∷ xs) h (o, w) = elim (Bool-cases (ltb m.created_at x.created_at)) [
  | inl e ↦ rw e (o, place-Without id m xs h w)
  | inr n ↦ rw n (h, (o, w))
]

sorted-Without : (id : String) (xs : List Message) → Without id xs → Without id (sorted xs)
unfolding sorted
sorted-Without id [] w = tt
sorted-Without id (x ∷ xs) (h, w) = place-Without id x (sorted xs) h (sorted-Without id xs w)

take-Without : (id : String) (n : ℕ) (xs : List Message) → Without id xs → Without id (take n xs)
unfolding take
take-Without id ℕ.zero xs w = tt
take-Without id (suc n) [] w = tt
take-Without id (suc n) (x ∷ xs) (h, w) = (h, take-Without id n xs w)

pub store_list-Without :
    (room : String) (limit : ℕ) (m : Message) (s : MemStore)
    → Keyed s
    → is_shown room m ≡ false
    → Without m.id (store_list room limit (insert m.id m s))
unfolding store_list
store_list-Without room limit m s h hidden =
    let all = sorted (shown room (insert m.id m s)) in
    let w = sorted-Without m.id _ (shown-insert room m s h hidden) in
    elim (Bool-cases (ltb limit (length all))) [
      | inl e ↦ rw e (take-Without m.id limit all w)
      | inr n ↦ rw n w
    ]

pub lookup-Keyed :
    (id : String) (m : Message) (s : MemStore) → Keyed s → lookup id s ≡ some m → m.id ≡ id
unfolding lookup
lookup-Keyed id m [] h e = cc
lookup-Keyed id m ((k, x) ∷ s) (same, new, h) e = elim (Bool-cases (k == id)) [
  | inl y ↦ let found : x ≡ m = ground arith in ap (λ q. q.id) (sym found) ∙ same ∙ eq_of_== k id y
  | inr n ↦ lookup-Keyed id m s h (ground arith)
]
