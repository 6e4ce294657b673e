-- ===== src/FeedingService/Reach.antt =====
-- Create keeps the invariant in outbox mode, and so does every history of calls.
use mathlib.Core.Path.{subst}
use yunmao.Base.{
  if_true, ◌≡◌, refl, sym, ◌∙◌, ap, inl, String, true, some, none, Dict, [], ◌∷◌, lookup, insert,
  lookup-insert_ne, arith, ==_of_ne, Time, Fallible, Duration,
}
use yunmao.FeedState.{accepted, queued, dispatched, transition}
use yunmao.FeedingService.{
  Room, Request, Deps, FeedingService, advance, transition_locked, receipt_of, register_room,
}
use yunmao.FeedingService.Handlers.{handle_ack, cancel, timeout_scan_run}
use yunmao.FeedingService.Create.{create, register, new_request}
use yunmao.FeedingService.Admission.{CreateInput, Draws}
use yunmao.FeedingService.Frame.{SameCore}
use yunmao.FeedingService.Outcomes.{Ending, refused, replayed, registered, create-Ending, Reply}
use yunmao.FeedingService.Invariant.{
  Inv, Fits, Others, Others-trans, keep, after_move, move_event, advance_ok, advance-Others,
  advance_shows, last_snapshot,
}
use yunmao.FeedingService.Steps.{handle_ack-Inv, cancel-Inv, timeout_scan_run-Inv}

module _ {C B : Type 0} where
  core-Inv : (s t : FeedingService C B) → Inv s → SameCore s t → Inv t
  unfolding receipt_of
  core-Inv s t v (requests, receipts, _, events) k r found =
      let (a, b, c) = v k r (sym (ap (lookup k) requests) ∙ found) in
      (a, rw receipts b, ap (last_snapshot k) events ∙ c)

  -- The service after the first move of a new request.
  abbrev entered : Draws → Request → String → FeedingService C B → FeedingService C B
  entered draws r receipt s = record s {
    receipts = insert draws.id receipt s.receipts;
    requests = insert draws.id (after_move r accepted draws.accepted_at) s.requests;
    events = move_event r accepted "validated" draws.accepted_at ∷ s.events;
  }

  entered-Others :
      (draws : Draws) (r : Request) (receipt : String) (s : FeedingService C B)
      → r.id ≡ draws.id
      → Others draws.id s (entered draws r receipt s)
  unfolding receipt_of
  entered-Others draws r receipt s e j ne = (
    lookup-insert_ne draws.id j (after_move r accepted draws.accepted_at) s.requests ne,
    ap (λ o. elim o [ none ↦ "" | some x ↦ x ]) (lookup-insert_ne draws.id j receipt s.receipts ne),
    ground (arith, e, ==_of_ne draws.id j ne),
  )

  register_outbox :
      (d : Deps C B) (input : CreateInput) (draws : Draws) (room : Room) (receipt : String)
      (s : FeedingService C B)
      → d.outbox_mode ≡ true
      → let r = new_request d input draws room in
        let p =
          advance
            (after_move r accepted draws.accepted_at)
            queued
            "queued to device-edge"
            draws.queued_at
            (entered draws r receipt s) in
        register d input draws room receipt s
        ≡ advance p.0 dispatched "dispatched via outbox" draws.dispatched_at p.1
  unfolding register new_request transition_locked transition
  register_outbox d input draws room receipt s h = if_true d.outbox_mode _ _ h

  register-Inv :
      (d : Deps C B) (input : CreateInput) (draws : Draws) (room : Room) (receipt : String)
      (s : FeedingService C B)
      → d.outbox_mode ≡ true
      → Inv s
      → Inv (register d input draws room receipt s).1
  unfolding new_request transition
  register-Inv d input draws room receipt s h v =
      let r = new_request d input draws room in
      let r1 = after_move r accepted draws.accepted_at in
      let s1 = entered draws r receipt s in
      let p = advance r1 queued "queued to device-edge" draws.queued_at s1 in
      let e : p.0 ≡ after_move r1 queued draws.queued_at =
        ap (λ q. q.0)
          (advance_ok r1 queued queued "queued to device-edge" draws.queued_at s1 refl) in
      let r2 = after_move r1 queued draws.queued_at in
      let u = (advance r2 dispatched "dispatched via outbox" draws.dispatched_at p.1).1 in
      let (found1, last, _) =
        advance_shows r2 dispatched dispatched "dispatched via outbox" draws.dispatched_at p.1
          refl in
      let others = Others-trans draws.id s s1 u (entered-Others draws r receipt s refl) (
        Others-trans draws.id s1 p.1 u
          (advance-Others r1 queued queued "queued to device-edge" draws.queued_at s1 refl)
          (advance-Others r2 dispatched dispatched "dispatched via outbox" draws.dispatched_at p.1
            refl)) in
      subst (λ (q : Request × FeedingService C B). Inv q.1)
        (sym (
          register_outbox d input draws room receipt s h
          ∙ ap (λ x. advance x dispatched "dispatched via outbox" draws.dispatched_at p.1) e))
        (keep draws.id s u v others (λ x found.
          let same : after_move r2 dispatched draws.dispatched_at ≡ x = cc (found, found1) in
          subst (λ y. Fits draws.id y u) same (refl, inl refl, last)))

  ending-Inv :
      (d : Deps C B) (input : CreateInput) (draws : Draws) (s : FeedingService C B) (p : Reply C B)
      → d.outbox_mode ≡ true
      → Inv s
      → Ending d input draws s p
      → Inv p.1
  ending-Inv d input draws s p h v (refused e t k _) = core-Inv s t v k
  ending-Inv d input draws s p h v (replayed r t k f) = core-Inv s t v k.0
  ending-Inv d input draws s p h v (registered room receipt t k o b _) =
      register-Inv d input draws room receipt t h (core-Inv s t v k)

  create-Inv :
      (d : Deps C B) (input : CreateInput) (draws : Draws) (s : FeedingService C B)
      → d.outbox_mode ≡ true
      → Inv s
      → Inv (create d input draws s).1
  create-Inv d input draws s h v =
      ending-Inv d input draws s (create d input draws s) h v (create-Ending d input draws s)

  -- One call, or a change of the key-value store or of billing from outside.
  pub data Step (d : Deps C B) : FeedingService C B → FeedingService C B → Type 0 where
    creates :
        (input : CreateInput) (draws : Draws) (s : FeedingService C B)
        → Step d s (create d input draws s).1
    acks :
        (command id status : String) (now : Time) (gateway : Fallible String (Unit {0}))
        (s : FeedingService C B)
        → Step d s (handle_ack d command id status now gateway s).1
    cancels :
        (id reason : String) (now : Time) (s : FeedingService C B)
        → Step d s (cancel d id reason now s).1
    scans :
        (ttl : Duration) (now : Time) (s : FeedingService C B)
        → Step d s (timeout_scan_run d ttl now s).1
    registers : (room : Room) (s : FeedingService C B) → Step d s (register_room room s)
    outside :
        (c : C) (b : B) (s : FeedingService C B) → Step d s (record s { cache = c; billed = b })

  pub data Reaches (d : Deps C B) : FeedingService C B → FeedingService C B → Type 0 where
    done : (s : FeedingService C B) → Reaches d s s
    more : (s t u : FeedingService C B) → Reaches d s t → Step d t u → Reaches d s u

  Step-Inv :
      (d : Deps C B) (s t : FeedingService C B) → d.outbox_mode ≡ true → Inv s → Step d s t → Inv t
  unfolding receipt_of register_room
  Step-Inv d _ _ h v (creates input draws s) = create-Inv d input draws s h v
  Step-Inv d _ _ h v (acks command id status now gateway s) =
      handle_ack-Inv d command id status now gateway s v
  Step-Inv d _ _ h v (cancels id reason now s) = cancel-Inv d id reason now s v
  Step-Inv d _ _ h v (scans ttl now s) = timeout_scan_run-Inv d ttl now s v
  Step-Inv d _ _ h v (registers room s) = v
  Step-Inv d _ _ h v (outside c b s) = v

  -- A service with no request, whatever its rooms, store and billing are.
  abbrev pub fresh : Dict Room → C → B → FeedingService C B
  fresh rooms c b = record {
    requests = [];
    receipts = [];
    rooms = rooms;
    region_qps_bucket = [];
    events = [];
    cache = c;
    billed = b;
  }

  from-Inv :
      (d : Deps C B) (s t : FeedingService C B)
      → d.outbox_mode ≡ true
      → Inv s
      → Reaches d s t
      → Inv t
  from-Inv d _ _ h v (done s) = v
  from-Inv d _ _ h v (more s m t r k) = Step-Inv d m t h (from-Inv d s m h v r) k

  -- In outbox mode, after any history of calls of a new service, every stored request is stored
  -- under its number, is what its latest event shows, and is either dispatched or, without a
  -- receipt, rejected, succeeded or failed.
  pub Reaches-Inv :
      (d : Deps C B) (rooms : Dict Room) (c : C) (b : B) (s : FeedingService C B)
      → d.outbox_mode ≡ true
      → Reaches d (fresh rooms c b) s
      → Inv s
  unfolding lookup
  Reaches-Inv d rooms c b s h r =
      from-Inv d (fresh rooms c b) s h (λ k x found. absurd (ground arith)) r
