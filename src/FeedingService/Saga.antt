-- ===== src/FeedingService/Saga.antt =====
-- Acknowledgement, cancellation and timeout keep the invariant of the outbox mode.
use yunmao.Base.{
  if_true, if_false, append, ◌≡◌, refl, sym, ◌∙◌, ap, inl, inr, String, false, some, none, lookup,
  erase, arith, Bool-cases, ◌==◌, Time,
}
use mathlib.Core.Path.{subst}
use yunmao.FeedState.{
  State, dispatched, acknowledged, queued, rejected, succeeded, failed, transition, state_eq,
}
use yunmao.FeedState
use yunmao.FeedingService.{Request, Deps, FeedingService, advance, receipt_of}
use yunmao.FeedingService.Handlers.{settle, ack_target, acknowledge, complete, ack_found}
use yunmao.FeedingService.Invariant.{
  Inv, Fits, Others, Others-trans, keep, IsFinal, after_move, advance_ok, advance-Others,
  advance_shows, drop_receipt, dropped_receipt,
}

pub ack_target-IsFinal : (status : String) → IsFinal (ack_target status)
unfolding ack_target
ack_target-IsFinal status = elim (Bool-cases (status == "succeeded")) [
  | inl e ↦ rw (e, ack_target) (inr (inl refl))
  | inr e ↦ rw (e, ack_target) (inr (inr refl))
]

pub ack_target_allowed :
    (status : String)
    → transition acknowledged (ack_target status) ≡ FeedState.ok (ack_target status)
unfolding ack_target transition
ack_target_allowed status = ground arith

pub allowed_ack :
    (st : State) → st ≡ dispatched → transition st acknowledged ≡ FeedState.ok acknowledged
unfolding transition
allowed_ack st h = ground arith

not_dispatched : (st : State) → IsFinal st → state_eq st dispatched ≡ false
not_dispatched st h = ground arith

not_acknowledged : (st : State) → IsFinal st → state_eq st acknowledged ≡ false
not_acknowledged st h = ground arith

module _ {C B : Type 0} where
  -- Settling changes the state of billing only.
  settle-requests :
      (d : Deps C B) (receipt : String) (st : State) (s : FeedingService C B)
      → ((settle d receipt st s).requests ≡ s.requests)
        × ((settle d receipt st s).receipts ≡ s.receipts)
        × ((settle d receipt st s).events ≡ s.events)
  unfolding settle
  settle-requests d receipt st s = (ground arith, ground arith, ground arith)

  settle-Others :
      (d : Deps C B) (receipt : String) (st : State) (k : String) (s : FeedingService C B)
      → Others k s (settle d receipt st s)
  unfolding receipt_of
  settle-Others d receipt st k s j ne =
      let (a, b, c) = settle-requests d receipt st s in (cc, cc, cc)

  -- A move of a request to a final state, with its receipt given up, keeps the invariant.
  pub close-Inv :
      (r : Request) (to : State) (reason : String) (now : Time) (s t u : FeedingService C B)
      → Inv s
      → Others r.id s t
      → transition r.status to ≡ FeedState.ok to
      → IsFinal to
      → Others r.id (advance r to reason now t).1 u
      → u.requests ≡ (advance r to reason now t).1.requests
      → u.events ≡ (advance r to reason now t).1.events
      → receipt_of r.id u ≡ ""
      → Inv u
  close-Inv r to reason now s t u v others ok final others' same shown dropped =
      let t1 = (advance r to reason now t).1 in
      let r1 = after_move r to now in
      let (found1, last, _) = advance_shows r to to reason now t ok in
      keep r.id s u v
        (Others-trans r.id s t u others
          (Others-trans r.id t t1 u (advance-Others r to to reason now t ok) others'))
        (λ x found.
          let e : r1 ≡ x = cc (found, found1, same) in
          subst (λ y. Fits r.id y u) e (refl, inr (final, dropped), cc (last, shown)))

  pub acknowledge_dispatched :
      (r : Request) (now : Time) (s : FeedingService C B)
      → r.status ≡ dispatched
      → acknowledge r now s
        ≡ (after_move r acknowledged now, (advance r acknowledged "device ack received" now s).1)
  unfolding acknowledge
  acknowledge_dispatched r now s h =
      let p = advance r acknowledged "device ack received" now s in
      if_true (state_eq r.status dispatched) p (r, s) (ap (λ st. state_eq st dispatched) h)
      ∙ ap (λ x. (x, p.1))
          (ap (λ q. q.0)
            (advance_ok r acknowledged acknowledged "device ack received" now s
              (allowed_ack r.status h)))

  -- What HandleAck does after its two moves.
  abbrev pub finish : Deps C B → Request → Request × FeedingService C B → FeedingService C B
  finish d r (r2, s2) =
      settle d (receipt_of r.id s2) r2.status (record s2 { receipts = erase r.id s2.receipts })

  abbrev pub completed : Request → String → Time → FeedingService C B → Request × FeedingService C B
  completed r status now s =
      advance (after_move r acknowledged now) (ack_target status) (append "ack: " status) now
        (advance r acknowledged "device ack received" now s).1

  -- The acknowledgement of a dispatched request.
  pub ack_found_dispatched :
      (d : Deps C B) (r : Request) (status : String) (now : Time) (s : FeedingService C B)
      → r.status ≡ dispatched
      → ack_found d r status now s ≡ finish d r (completed r status now s)
  unfolding ack_found complete
  ack_found_dispatched d r status now s h =
      ap (λ p. finish d r (complete p.0 status now p.1)) (acknowledge_dispatched r now s h)

  -- An acknowledgement of a final request only gives up a receipt that is not there.
  pub ack_found_final :
      (d : Deps C B) (r : Request) (status : String) (now : Time) (s : FeedingService C B)
      → IsFinal r.status
      → ack_found d r status now s ≡ finish d r (r, s)
  unfolding ack_found acknowledge complete
  ack_found_final d r status now s h =
      ap (λ (p : Request × FeedingService C B). finish d r (complete p.0 status now p.1))
        (if_false (state_eq r.status dispatched) _ (r, s) (not_dispatched r.status h))
      ∙ ap (finish d r)
          (if_false (state_eq r.status acknowledged) _ (r, s) (not_acknowledged r.status h))

  finish-Others :
      (d : Deps C B) (r : Request) (p : Request × FeedingService C B)
      → Others r.id p.1 (finish d r p)
  finish-Others d r (r2, s2) =
      let t = record s2 { receipts = erase r.id s2.receipts } in
      Others-trans r.id s2 t _ (drop_receipt r.id s2)
        (settle-Others d (receipt_of r.id s2) r2.status r.id t)

  pub finish_shows :
      (d : Deps C B) (r : Request) (p : Request × FeedingService C B)
      → ((finish d r p).requests ≡ p.1.requests)
        × ((finish d r p).events ≡ p.1.events)
        × (receipt_of r.id (finish d r p) ≡ "")
  unfolding receipt_of
  finish_shows d r (r2, s2) =
      let t = record s2 { receipts = erase r.id s2.receipts } in
      let (a, b, c) = settle-requests d (receipt_of r.id s2) r2.status t in
      (a, c, ap (λ m. elim (lookup r.id m) [ none ↦ "" | some x ↦ x ]) b ∙ dropped_receipt r.id s2)

  ack_dispatched-Inv :
      (d : Deps C B) (r : Request) (status : String) (now : Time) (s : FeedingService C B)
      → Inv s
      → r.status ≡ dispatched
      → Inv (ack_found d r status now s)
  ack_dispatched-Inv d r status now s v h =
      let p = completed r status now s in
      let (a, b, c) = finish_shows d r p in
      subst Inv (sym (ack_found_dispatched d r status now s h)) (
        close-Inv (after_move r acknowledged now) (ack_target status) (append "ack: " status) now s
          (advance r acknowledged "device ack received" now s).1 (finish d r p) v
          (advance-Others r acknowledged acknowledged "device ack received" now s
            (allowed_ack r.status h))
          (ack_target_allowed status) (ack_target-IsFinal status) (finish-Others d r p) a b c)

  ack_final-Inv :
      (d : Deps C B) (r : Request) (status : String) (now : Time) (s : FeedingService C B)
      → Inv s
      → lookup r.id s.requests ≡ some r
      → IsFinal r.status
      → Inv (ack_found d r status now s)
  ack_final-Inv d r status now s v found h =
      let u = finish d r (r, s) in
      let (a, b, c) = finish_shows d r (r, s) in
      let (_, _, last) = v r.id r found in
      subst Inv (sym (ack_found_final d r status now s h)) (
        keep r.id s u v (finish-Others d r (r, s)) (λ x e.
          let same : r ≡ x = cc (found, e, a) in
          subst (λ y. Fits r.id y u) same (refl, inr (h, c), cc (last, b))))

  -- An acknowledgement keeps the invariant, whatever the request's state is.
  pub ack_found-Inv :
      (d : Deps C B) (r : Request) (status : String) (now : Time) (s : FeedingService C B)
      → Inv s
      → lookup r.id s.requests ≡ some r
      → Inv (ack_found d r status now s)
  ack_found-Inv d r status now s v found =
      let (_, settled, _) = v r.id r found in
      elim settled [
        | inl h ↦ ack_dispatched-Inv d r status now s v h
        | inr (h, _) ↦ ack_final-Inv d r status now s v found h
      ]
