-- ===== src/FeedingService/Outcomes.antt =====
-- Every way in which Create ends.
use yunmao.Base.{
  ap, sym, insert, lookup-insert_self, lookup-insert_ne, ◌⊎◌, inl, inr, ◌≢◌, ◌∙◌, if◌then◌else◌,
  Bool-cases, ◌≡◌, refl, String, Bool, true, false, Option, some, none, Fallible, returns, fails,
  ◌>>=◌, fail_if, lookup, arith,
}
use yunmao.Errors.{AppError, new, pay_channel_failed, system_internal, feed_duplicate_request}
use yunmao.FeedingSafety
use yunmao.FeedState.{dispatched, queued, transition}
use yunmao.FeedingService.{
  BillingReserveInput, transition_locked, advance, Room, Request, Deps, FeedingService, Method,
}
use yunmao.FeedingService.Create.{
  open_room, resolved, pass_limiter, reserve_funds, reservation, register, new_request,
  create_allowed, create_keyed, first_or_replay, claim_key, book, limit, admit, check_flags,
  create_first, create, replay,
}
use yunmao.FeedingService.Admission.{
  CreateInput, Draws, missing_field, find_by_key, or_error, or_fail,
}
use yunmao.FeedingService.Frame.{
  SameCore, SameBills, Keeps, SameBills-trans, Keeps-fail_if, pass_limiter-Keeps, check_flags-Keeps,
  resolved-Keeps, open_room-Keeps, claim_key-Keeps,
}

abbrev pub Reply : Type 0 → Type 0 → Type 0
Reply C B = Fallible AppError Request × FeedingService C B

module _ {C B : Type 0} (d : Deps C B) (input : CreateInput) (draws : Draws) where
  abbrev pub IsOpen : FeedingService C B → Room → Type 0
  IsOpen s room =
      (lookup input.room_id s.rooms ≡ some room)
      × (room.feeding_open ≡ true)
      × (room.no_feed_window ≡ false)

  open_room_lem :
      (s : FeedingService C B) (room : Room)
      → (open_room d input draws s).0 ≡ returns room
      → IsOpen s room
  unfolding open_room
  open_room_lem s room h = (ground arith, ground arith, ground arith)

  -- What billing is asked to reserve for a room.
  abbrev pub order_for : Room → BillingReserveInput
  order_for room = record {
    user_id = input.user_id;
    room_id = input.room_id;
    cat_id = room.cat_id;
    amount_grams = input.amount_grams;
    idempotency_key = input.idempotency_key;
  }

  -- Billing was not called, or refused the reservation.
  abbrev pub IsUnpaid : FeedingService C B → FeedingService C B → Type 0
  IsUnpaid s t =
      (t.billed ≡ s.billed)
      ⊎ ((room : Room) × (e : String) × (d.billing.reserve (order_for room) s.billed
            ≡ (fails e, t.billed)))

  -- The request that the input makes for a room, after its moves.
  abbrev pub request_for : Room → Request
  request_for room = record {
    id = draws.id;
    user_id = input.user_id;
    room_id = input.room_id;
    cat_id = room.cat_id;
    device_id = room.device_id;
    device_command_id = draws.device_command_id;
    amount_grams = input.amount_grams;
    status = if d.outbox_mode then dispatched else queued;
    idempotency_key = input.idempotency_key;
    reject_reason = "";
    created_at = draws.now;
    updated_at = if d.outbox_mode then draws.dispatched_at else draws.queued_at;
  }

  -- The service has the request and its receipt under the new number, and else what it had.
  abbrev pub IsStored : Room → String → FeedingService C B → Request × FeedingService C B → Type 0
  IsStored room receipt t (r, u) =
      (r ≡ request_for room)
      × (lookup draws.id u.requests ≡ some r)
      × ((k : String) → draws.id ≢ k → lookup k u.requests ≡ lookup k t.requests)
      × (u.receipts ≡ insert draws.id receipt t.receipts)
      × (u.billed ≡ t.billed)

  -- The ways in which Create may end on a service: with an error, no request stored and nothing
  -- reserved; with the request that was made under the same key, and no call of billing; or with a
  -- new request for an open room, after one reservation, which gave its receipt.
  pub data Ending (s : FeedingService C B) : Reply C B → Type 0 where
    refused :
        (e : AppError) (t : FeedingService C B)
        → SameCore s t
        → IsUnpaid s t
        → Ending s (fails e, t)
    replayed :
        (r : Request) (t : FeedingService C B)
        → SameBills s t
        → find_by_key input.idempotency_key s.requests ≡ some r
        → Ending s (returns r, t)
    registered :
        (room : Room) (receipt : String) (t : FeedingService C B)
        → SameCore s t
        → IsOpen s room
        → d.billing.reserve (order_for room) s.billed ≡ (returns receipt, t.billed)
        → IsStored room receipt t (register d input draws room receipt t)
        → Ending s (
          returns (register d input draws room receipt t).0,
          (register d input draws room receipt t).1,
        )

  ended :
      {A : Type 0} (f : A → Method C B Request) (s t u : FeedingService C B)
      (r : Fallible AppError A)
      → SameBills s u
      → ((a : A) → r ≡ returns a → SameBills s u → Ending s (f a u))
      → Ending s (((λ v. (r, u)) >>= f) t)
  ended f s t u (returns a) k h = h a refl k
  ended f s t u (fails e) k h = refused e u k.0 (inl k.1)

  Ending-bind :
      {A : Type 0} (m : Method C B A) (f : A → Method C B Request) (s t : FeedingService C B)
      → Keeps m
      → SameBills s t
      → ((a : A) → (m t).0 ≡ returns a → SameBills s (m t).1 → Ending s (f a (m t).1))
      → Ending s ((m >>= f) t)
  Ending-bind m f s t k e h = ended f s t (m t).1 (m t).0 (SameBills-trans s t (m t).1 e (k t)) h

  register-IsStored :
      (room : Room) (receipt : String) (t : FeedingService C B)
      → IsStored room receipt t (register d input draws room receipt t)
  unfolding register new_request transition_locked advance transition
  register-IsStored room receipt t = elim (Bool-cases d.outbox_mode) [
    | inl e ↦ rw e (
      refl,
      lookup-insert_self draws.id _ _,
      λ k ne.
          lookup-insert_ne draws.id k _ _ ne
          ∙ lookup-insert_ne draws.id k _ _ ne
          ∙ lookup-insert_ne draws.id k _ t.requests ne,
      refl,
      refl,
    )
    | inr e ↦ rw e (
      refl,
      lookup-insert_self draws.id _ _,
      λ k ne. lookup-insert_ne draws.id k _ _ ne ∙ lookup-insert_ne draws.id k _ t.requests ne,
      refl,
      refl,
    )
  ]

  booked :
      (room : Room) (s t : FeedingService C B) (r : Fallible String String)
      → IsOpen s room
      → SameCore s t
      → d.billing.reserve (order_for room) s.billed ≡ (r, t.billed)
      → Ending s (
          ((λ v. or_error pay_channel_failed "billing reserve: " (r, t)) >>= λ receipt u. (
            returns (register d input draws room receipt u).0,
            (register d input draws room receipt u).1,
          ))
            t)
  booked room s t (returns receipt) opened k e =
      registered room receipt t k opened e (register-IsStored room receipt t)
  booked room s t (fails e) opened k e' = refused _ t k (inr (room, e, e'))

  reserve-Ending :
      (room : Room) (s t : FeedingService C B)
      → IsOpen s room
      → SameBills s t
      → Ending s (book d input draws room t)
  unfolding book reserve_funds reservation
  reserve-Ending room s t opened k =
      let r = d.billing.reserve (order_for room) t.billed in
      booked room s (record t { billed = r.1 }) r.0 opened k.0
        (ap (d.billing.reserve (order_for room)) (sym k.1))

  limit-Ending :
      (room : Room) (s t : FeedingService C B) (l : FeedingSafety.Limits)
      → IsOpen s room
      → SameBills s t
      → Ending s (limit d input draws room l t)
  unfolding limit
  limit-Ending room s t l opened k =
      Ending-bind (pass_limiter d input draws room l) (λ u. book d input draws room) s t
        (pass_limiter-Keeps d input draws room l) k
        λ u _ k'. reserve-Ending room s (pass_limiter d input draws room l t).1 opened k'

  admit-Ending :
      (room : Room) (s t : FeedingService C B)
      → IsOpen s room
      → SameBills s t
      → Ending s (admit d input draws room t)
  unfolding admit
  admit-Ending room s t opened k =
      Ending-bind (resolved d input draws (d.safety input.room_id)) (limit d input draws room) s t
        (resolved-Keeps d input draws (d.safety input.room_id)) k
        λ l _ k'.
          limit-Ending room s (resolved d input draws (d.safety input.room_id) t).1 l opened k'

  moved_room :
      (s t : FeedingService C B) (room : Room) → SameBills s t → IsOpen t room → IsOpen s room
  moved_room s t room k (found, opened, free) = (cc, opened, free)

  create_first-Ending :
      (s t : FeedingService C B) → SameBills s t → Ending s (create_first d input draws t)
  unfolding create_first
  create_first-Ending s t k =
      Ending-bind (open_room d input draws) (admit d input draws) s t
        (open_room-Keeps d input draws) k
        λ room opened k'.
          admit-Ending room s (open_room d input draws t).1
            (moved_room s t room k (open_room_lem t room opened)) k'

  replayed_or_not :
      (s t : FeedingService C B) (found : Option Request)
      → SameBills s t
      → find_by_key input.idempotency_key s.requests ≡ found
      → (e : AppError) → Ending s (or_fail found e t)
  replayed_or_not s t none k h e = refused e t k.0 (inl k.1)
  replayed_or_not s t (some r) k h e = replayed r t k h

  keyed-Ending :
      (s t : FeedingService C B) (first : Bool)
      → SameBills s t
      → Ending s (first_or_replay d input draws first t)
  unfolding first_or_replay replay
  keyed-Ending s t true k = create_first-Ending s t k
  keyed-Ending s t false k =
      replayed_or_not s t (find_by_key input.idempotency_key t.requests) k (cc)
        (new feed_duplicate_request "duplicate request without record")

  create_allowed-Ending :
      (s t : FeedingService C B) → SameBills s t → Ending s (create_allowed d input draws t)
  unfolding create_allowed create_keyed
  create_allowed-Ending s t k =
      Ending-bind (check_flags d input draws d.flags) (λ u. create_keyed d input draws) s t
        (check_flags-Keeps d input draws d.flags) k
        λ u _ k1.
          Ending-bind (claim_key d input draws) (first_or_replay d input draws) s
            (check_flags d input draws d.flags t).1 (claim_key-Keeps d input draws) k1
            λ first _ k2.
              keyed-Ending s (claim_key d input draws (check_flags d input draws d.flags t).1).1
                first k2

  -- Create ends with an error, stores no request and reserves nothing: billing was not called or
  -- refused; or it repeats the request that was made under its key and calls no billing; or billing
  -- granted one reservation for the input, and a new request with the input's fields is stored with the
  -- receipt under the new number, for a room that is open, and is dispatched in outbox mode and queued
  -- otherwise.
  pub create-Ending : (s : FeedingService C B) → Ending s (create d input draws s)
  unfolding create
  create-Ending s =
      Ending-bind (fail_if (missing_field input) (new system_internal "missing required field"))
        (λ u. create_allowed d input draws) s s
        (Keeps-fail_if (missing_field input) (new system_internal "missing required field"))
        ((refl, refl, refl, refl), refl) λ u _ k. create_allowed-Ending s s k
