-- ===== src/Mqttx/Delivery.antt =====
-- Whom a message reaches: a subscription adds one call exactly if its filter matches, and a client
-- that has left gets none.
use yunmao.Base.{
  ◌≡◌, refl, String, none, some, Bool-cases, Option-cases, inl, inr, if◌then◌else◌, arith, List, [],
  ◌∷◌, ◌++◌, ◌==◌, lookup, insert, erase,
}
use mathlib.Core.List.{Perm, perm_middle, append_assoc, map-append}
use mathlib.Core.List.Perm
use yunmao.Mqttx.{
  Subscription, MemoryBroker, split_topic, match_filter, matching, matches_of, deliver, subs_of,
  broker_publish, broker_subscribe, disconnect, MemoryClient,
}

module _ {H : Type 0} where
  matching-append :
      (parts : List String) (xs ys : List (Subscription H))
      → matching parts (xs ++ ys) ≡ matching parts xs ++ matching parts ys
  unfolding matching
  matching-append parts [] ys = refl
  matching-append parts (x ∷ xs) ys = ground (arith, matching-append parts xs ys)

  left_comm : (xs ys zs : List H) → Perm (xs ++ (ys ++ zs)) (ys ++ (xs ++ zs))
  left_comm [] ys zs = Perm.refl _
  left_comm (x ∷ xs) ys zs =
      Perm.trans (Perm.cons x (left_comm xs ys zs)) (Perm.symm (perm_middle ys (xs ++ zs)))

  joins_new :
      (parts : List String) (id : String) (new : List (Subscription H)) (b : MemoryBroker H)
      → lookup id b ≡ none
      → Perm (matches_of parts (insert id new b)) (matching parts new ++ matches_of parts b)
  unfolding matches_of lookup insert
  joins_new parts id new [] h = Perm.refl _
  joins_new parts id new ((j, subs) ∷ b) h = elim (Bool-cases (j == id)) [
    | inl e ↦ cc
    | inr n ↦ rw n (
        Perm.trans
          (Perm.append_left (matching parts subs) (joins_new parts id new b (ground arith)))
          (left_comm (matching parts subs) (matching parts new) (matches_of parts b)))
  ]

  joins_old :
      (parts : List String) (id : String) (old new : List (Subscription H)) (b : MemoryBroker H)
      → lookup id b ≡ some old
      → Perm
          (matches_of parts (insert id (old ++ new) b))
          (matching parts new ++ matches_of parts b)
  unfolding matches_of lookup insert
  joins_old parts id old new [] h = cc
  joins_old parts id old new ((j, subs) ∷ b) h = elim (Bool-cases (j == id)) [
    | inl e ↦
        let same : old ≡ subs = ground arith in
        rw e (
          rw same (
            rw (matching-append parts subs new) (
              rw (append_assoc (matching parts subs) (matching parts new) (matches_of parts b))
                (left_comm (matching parts subs) (matching parts new) (matches_of parts b)))))
    | inr n ↦ rw n (
        Perm.trans
          (Perm.append_left (matching parts subs) (joins_old parts id old new b (ground arith)))
          (left_comm (matching parts subs) (matching parts new) (matches_of parts b)))
  ]

  matches_of-broker_subscribe :
      (id filter topic : String) (h : H) (b : MemoryBroker H)
      → Perm (matches_of (split_topic topic) (broker_subscribe id filter h b)) (
          (if match_filter (split_topic filter) (split_topic topic) then h ∷ [] else [])
          ++ matches_of (split_topic topic) b)
  unfolding broker_subscribe subs_of matching
  matches_of-broker_subscribe id filter topic h b = elim (Option-cases (lookup id b)) [
    | inl e ↦ rw (e, subs_of) (joins_new (split_topic topic) id _ b e)
    | inr (old, e) ↦ rw (e, subs_of) (joins_old (split_topic topic) id old _ b e)
  ]

  -- The handlers of a client's own subscriptions that a topic reaches.
  abbrev pub own : List String → String → MemoryBroker H → List H
  own parts id [] = []
  own parts id ((j, subs) ∷ b) =
      if j == id then matching parts subs ++ own parts id b else own parts id b

  matches_of-disconnect :
      (parts : List String) (c : MemoryClient) (b : MemoryBroker H)
      → Perm (matches_of parts b) (own parts c.client_id b ++ matches_of parts (disconnect c b).1)
        × (own parts c.client_id (disconnect c b).1 ≡ [])
  unfolding matches_of disconnect erase
  matches_of-disconnect parts c [] = (Perm.refl _, refl)
  matches_of-disconnect parts c ((j, subs) ∷ b) =
      let (rest, gone) = matches_of-disconnect parts c b in
      elim (Bool-cases (j == c.client_id)) [
        | inl e ↦ (rw e (rw append_assoc (Perm.append_left (matching parts subs) rest)), rw e gone)
        | inr n ↦ (
          rw n (
              Perm.trans (Perm.append_left (matching parts subs) rest) (
                left_comm (matching parts subs) (own parts c.client_id b)
                  (matches_of parts (disconnect c b).1))),
          ground arith,
        )
      ]

  -- What a subscription adds to the calls of a publication: a call of its handler exactly if its
  -- filter matches the topic, and every other call as before, in some order.
  pub broker_publish-broker_subscribe :
      (id filter topic payload : String) (h : H) (b : MemoryBroker H)
      → Perm (broker_publish topic payload (broker_subscribe id filter h b)) (
          deliver topic payload
            (if match_filter (split_topic filter) (split_topic topic) then h ∷ [] else [])
          ++ broker_publish topic payload b)
  unfolding broker_publish deliver
  broker_publish-broker_subscribe id filter topic payload h b =
      rw (← map-append) (Perm.map _ (matches_of-broker_subscribe id filter topic h b))

  -- When a client leaves, the calls of a publication are those before less the calls of the
  -- client's own handlers, of which none is left.
  pub broker_publish-disconnect :
      (topic payload : String) (c : MemoryClient) (b : MemoryBroker H)
      → Perm (broker_publish topic payload b) (
          deliver topic payload (own (split_topic topic) c.client_id b)
          ++ broker_publish topic payload (disconnect c b).1)
        × (own (split_topic topic) c.client_id (disconnect c b).1 ≡ [])
  unfolding broker_publish deliver
  broker_publish-disconnect topic payload c b =
      let (calls, gone) = matches_of-disconnect (split_topic topic) c b in
      (rw (← map-append) (Perm.map _ calls), gone)
