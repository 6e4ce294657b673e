-- ===== src/FeedingService/Settlement.antt =====
-- What an acknowledgement and a cancellation do to a dispatched request and to billing.
use yunmao.Base.{
  append, ◌≡◌, ◌≢◌, refl, ◌∙◌, ap, inl, inr, ◌⊎◌, String, some, none, lookup, erase, arith,
  if◌then◌else◌, ◌==◌, ==_of_ne, Time, Bool-cases,
}
use yunmao.FeedState.{
  State, queued, dispatched, acknowledged, succeeded, failed, rejected, state_eq, transition,
}
use yunmao.FeedState
use yunmao.FeedingService.{Request, Deps, FeedingService, advance, receipt_of}
use yunmao.FeedingService.Handlers.{settle, ack_target, ack_found, give_back, cancel_request}
use yunmao.FeedingService.Invariant.{after_move, advance_ok, advance_shows, dropped_receipt}
use yunmao.FeedingService.Saga.{
  completed, ack_found_dispatched, finish_shows, ack_target_allowed, allowed_ack,
}
use yunmao.FeedingService.Steps.{give_back_core}

waiting :
    (st : State)
    → (st ≡ queued) ⊎ (st ≡ dispatched)
    → transition st rejected ≡ FeedState.ok rejected
unfolding transition
waiting st h = ground arith

module _ {C B : Type 0} where
  settle-billed :
      (d : Deps C B) (receipt status : String) (s : FeedingService C B)
      → receipt ≢ ""
      → (settle d receipt (ack_target status) s).billed ≡ (
          if status == "succeeded"
          then (d.billing.confirm receipt s.billed).1
          else (d.billing.cancel receipt s.billed).1)
  unfolding settle ack_target
  settle-billed d receipt status s ne = elim (Bool-cases (status == "succeeded")) [
    | inl e ↦ rw (==_of_ne receipt "" ne, e, settle, ack_target)
    | inr e ↦ rw (==_of_ne receipt "" ne, e, settle, ack_target)
  ]

  completed_shows :
      (r : Request) (status : String) (now : Time) (s : FeedingService C B)
      → r.status ≡ dispatched
      → let p = completed r status now s in
        (p.0.status ≡ ack_target status)
        × (lookup r.id p.1.requests
            ≡ some (record r { status = ack_target status; updated_at = now }))
        × (receipt_of r.id p.1 ≡ receipt_of r.id s)
        × (p.1.billed ≡ s.billed)
  unfolding advance
  completed_shows r status now s h =
      let s1 = (advance r acknowledged "device ack received" now s).1 in
      let r1 = after_move r acknowledged now in
      let ok = ack_target_allowed status in
      let to = ack_target status in
      let (found, _, kept) = advance_shows r1 to to (append "ack: " status) now s1 ok in
      let (_, _, kept1) =
        advance_shows r acknowledged acknowledged "device ack received" now s
          (allowed_ack r.status h) in
      (
        ap (λ (q : Request × FeedingService C B). q.0.status)
            (advance_ok r1 to to (append "ack: " status) now s1 ok),
        found,
        kept ∙ kept1,
        refl,
      )

  -- The first acknowledgement of a dispatched request gives it the status succeeded or failed, gives
  -- up its receipt, and calls billing once: it confirms the receipt if the device succeeded, and
  -- cancels it otherwise.
  pub ack_found-settle :
      (d : Deps C B) (r : Request) (status : String) (now : Time) (s : FeedingService C B)
      → r.status ≡ dispatched
      → receipt_of r.id s ≢ ""
      → let t = ack_found d r status now s in
        (lookup r.id t.requests ≡ some (record r { status = ack_target status; updated_at = now }))
        × (receipt_of r.id t ≡ "")
        × (t.billed ≡ (
            if status == "succeeded"
            then (d.billing.confirm (receipt_of r.id s) s.billed).1
            else (d.billing.cancel (receipt_of r.id s) s.billed).1))
  ack_found-settle d r status now s h ne =
      let q = completed r status now s in
      let u = record q.1 { receipts = erase r.id q.1.receipts } in
      let (st, found, kept, billed) = completed_shows r status now s h in
      let (a, _, dropped) = finish_shows d r q in
      rw (ack_found_dispatched d r status now s h) (
        ap (lookup r.id) a ∙ found,
        dropped,
        ap (λ x. (settle d x q.0.status u).billed) kept
            ∙ ap (λ x. (settle d (receipt_of r.id s) x u).billed) st
            ∙ settle-billed d (receipt_of r.id s) status u ne
            ∙ ap
                (λ b.
                  if status == "succeeded"
                  then (d.billing.confirm (receipt_of r.id s) b).1
                  else (d.billing.cancel (receipt_of r.id s) b).1)
                billed,
      )

  give_back-billed :
      (d : Deps C B) (receipt : String) (s : FeedingService C B)
      → (give_back d receipt s).billed
        ≡ (if receipt == "" then s.billed else (d.billing.cancel receipt s.billed).1)
  unfolding give_back
  give_back-billed d receipt s = ground arith

  -- A cancellation of a request that waits for its device gives it the status rejected and the
  -- reason, or "cancelled" for an empty one, gives up its receipt, and cancels the receipt at
  -- billing if there is one.
  pub cancel_request-give_back :
      (d : Deps C B) (r : Request) (reason : String) (now : Time) (s : FeedingService C B)
      → (r.status ≡ queued) ⊎ (r.status ≡ dispatched)
      → let t = (cancel_request d r reason now s).1 in
        let why = if reason == "" then "cancelled" else reason in
        (lookup r.id t.requests
          ≡ some (record r { reject_reason = why; status = rejected; updated_at = now }))
        × (receipt_of r.id t ≡ "")
        × (t.billed ≡ (
            if receipt_of r.id s == ""
            then s.billed
            else (d.billing.cancel (receipt_of r.id s) s.billed).1))
  unfolding cancel_request receipt_of
  cancel_request-give_back d r reason now s h =
      let why = if reason == "" then "cancelled" else reason in
      let r' = record r { reject_reason = why } in
      let s1 = (advance r' rejected why now s).1 in
      let u = record s1 { receipts = erase r.id s1.receipts } in
      let (a, b, _) = give_back_core d (receipt_of r.id s1) u in
      let (found, _, _) = advance_shows r' rejected rejected why now s (waiting r.status h) in
      (
        ap (lookup r.id) a ∙ found,
        ap (λ m. elim (lookup r.id m) [ none ↦ "" | some x ↦ x ]) b ∙ dropped_receipt r.id s1,
        give_back-billed d (receipt_of r.id s1) u,
      )
