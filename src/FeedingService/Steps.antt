-- ===== src/FeedingService/Steps.antt =====
-- Every call of the feeding service in outbox mode keeps the invariant.
use mathlib.Core.Path.{subst}
use yunmao.Base.{
  if_true, if_false, ◌≡◌, refl, sym, ◌∙◌, ap, ◌⊎◌, inl, inr, String, Bool, true, false, not, ◌&&◌,
  some, none, Dict, lookup, erase, arith, Option-cases, Bool-cases, [], ◌∷◌, if◌then◌else◌, ◌==◌,
  eq_of_==, Time, Fallible, returns, fails, Duration, ◌>>=◌, Action,
}
use yunmao.FeedState.{State, dispatched, queued, rejected, failed, transition, state_eq}
use yunmao.FeedState
use yunmao.FeedingService.{Request, Deps, FeedingService, advance, receipt_of, in_cache}
use yunmao.FeedingService.Handlers.{
  give_back, handle_new_ack, handle_ack, cancel_request, cancel, time_out, is_overdue, scan,
  timeout_scan_run,
}
use yunmao.Cache.{insert_once}
use yunmao.FeedingService.Invariant.{Inv, Others, Others-trans, drop_receipt, dropped_receipt}
use yunmao.FeedingService.Saga.{ack_found-Inv, close-Inv}

waits :
    (st : State) (to : State)
    → (not (state_eq st queued) && not (state_eq st dispatched)) ≡ false
    → (to ≡ rejected) ⊎ (to ≡ failed)
    → transition st to ≡ FeedState.ok to
unfolding transition
waits st to h e = ground arith

module _ {C B : Type 0} where
  pub give_back_core :
      (d : Deps C B) (receipt : String) (s : FeedingService C B)
      → ((give_back d receipt s).requests ≡ s.requests)
        × ((give_back d receipt s).receipts ≡ s.receipts)
        × ((give_back d receipt s).events ≡ s.events)
  unfolding give_back
  give_back_core d receipt s = (ground arith, ground arith, ground arith)

  give_back-Others :
      (d : Deps C B) (receipt k : String) (s : FeedingService C B)
      → Others k s (give_back d receipt s)
  unfolding receipt_of
  give_back-Others d receipt k s j ne = let (a, b, c) = give_back_core d receipt s in (cc, cc, cc)

  -- A request that waits for its device ends, and its receipt is given back.
  end-Inv :
      (d : Deps C B) (r : Request) (to : State) (reason receipt : String) (now : Time)
      (s : FeedingService C B)
      → Inv s
      → transition r.status to ≡ FeedState.ok to
      → (to ≡ rejected) ⊎ (to ≡ failed)
      → let t = (advance r to reason now s).1 in
        Inv (give_back d receipt (record t { receipts = erase r.id t.receipts }))
  unfolding receipt_of
  end-Inv d r to reason receipt now s v ok final =
      let t = (advance r to reason now s).1 in
      let t' = record t { receipts = erase r.id t.receipts } in
      let (a, b, c) = give_back_core d receipt t' in
      let u = give_back d receipt t' in
      close-Inv r to reason now s s u v (λ j ne. (refl, refl, refl)) ok
        (elim final [ inl e ↦ inl e | inr e ↦ inr (inr e) ])
        (Others-trans r.id t t' u (drop_receipt r.id t) (give_back-Others d receipt r.id t')) a c
        (ap (λ m. elim (lookup r.id m) [ none ↦ "" | some x ↦ x ]) b ∙ dropped_receipt r.id t)

  pub handle_new_ack-Inv :
      (d : Deps C B) (id status : String) (now : Time) (gateway : Fallible String (Unit {0}))
      (first : Bool) (s : FeedingService C B)
      → Inv s
      → Inv (handle_new_ack d id status now gateway first s).1
  unfolding handle_new_ack
  handle_new_ack-Inv d id status now gateway false s v = v
  handle_new_ack-Inv d id status now gateway true s v = elim (Option-cases (lookup id s.requests)) [
    | inl gone ↦ rw (gone, handle_new_ack) v
    | inr (r, found) ↦
        let (key, _, _) = v id r found in
        rw (found, handle_new_ack)
          (ack_found-Inv d r status now s v
            (subst (λ k. lookup k s.requests ≡ some r) (sym key) found))
  ]

  bound-Inv :
      (f : Bool → Action (FeedingService C B) String (Unit {0})) (s t : FeedingService C B)
      (r : Fallible String Bool)
      → Inv t
      → ((first : Bool) → Inv (f first t).1)
      → Inv (((λ u. (r, t)) >>= f) s).1
  bound-Inv f s t (returns first) v h = h first
  bound-Inv f s t (fails e) v h = v

  -- `HandleAck` keeps the invariant.
  pub handle_ack-Inv :
      (d : Deps C B) (command id status : String) (now : Time)
      (gateway : Fallible String (Unit {0})) (s : FeedingService C B)
      → Inv s
      → Inv (handle_ack d command id status now gateway s).1
  unfolding handle_ack receipt_of
  handle_ack-Inv d command id status now gateway s v =
      let p = in_cache (insert_once d.store d.idem "ack" command) s in
      bound-Inv (handle_new_ack d id status now gateway) s p.1 p.0 v
        (λ first. handle_new_ack-Inv d id status now gateway first p.1 v)

  cancel_request-Inv :
      (d : Deps C B) (r : Request) (reason : String) (now : Time) (s : FeedingService C B)
      → Inv s
      → (not (state_eq r.status queued) && not (state_eq r.status dispatched)) ≡ false
      → Inv (cancel_request d r reason now s).1
  unfolding cancel_request
  cancel_request-Inv d r reason now s v h =
      let why = if reason == "" then "cancelled" else reason in
      let r' = record r { reject_reason = why } in
      end-Inv d r' rejected why (receipt_of r.id (advance r' rejected why now s).1) now s v
        (waits r.status rejected h (inl refl)) (inl refl)

  -- `Cancel` keeps the invariant.
  pub cancel-Inv :
      (d : Deps C B) (id reason : String) (now : Time) (s : FeedingService C B)
      → Inv s
      → Inv (cancel d id reason now s).1
  unfolding cancel
  cancel-Inv d id reason now s v = elim (Bool-cases (id == "")) [
    | inl e ↦ rw (e, cancel) v
    | inr e ↦ elim (Option-cases (lookup id s.requests)) [
      | inl gone ↦ rw (e, gone, cancel) v
      | inr (r, found) ↦
          elim (Bool-cases (not (state_eq r.status queued) && not (state_eq r.status dispatched))) [
            | inl busy ↦ rw (e, found, busy, cancel) v
            | inr waiting ↦
                rw (e, found, waiting, cancel) (cancel_request-Inv d r reason now s v waiting)
          ]
    ]
  ]

  time_out-Inv :
      (d : Deps C B) (ttl : Duration) (r : Request) (now : Time) (s : FeedingService C B)
      → Inv s
      → is_overdue ttl now r ≡ true
      → Inv (time_out d r now s)
  unfolding time_out is_overdue
  time_out-Inv d ttl r now s v h =
      let r' = record r { reject_reason = "timeout" } in
      let t = (advance r' failed "timeout" now s).1 in
      let ok = waits r.status failed (ground arith) (inr refl) in
      elim (Bool-cases (receipt_of r.id t == "")) [
        | inl e ↦ subst Inv (sym (if_true (receipt_of r.id t == "") t _ e)) (
            close-Inv r' failed "timeout" now s s t v (λ j ne. (refl, refl, refl)) ok
              (inr (inr refl)) (λ j ne. (refl, refl, refl)) refl refl (eq_of_== _ _ e))
        | inr e ↦
            subst Inv (sym (if_false (receipt_of r.id t == "") t _ e))
              (end-Inv d r' failed "timeout" (receipt_of r.id t) now s v ok (inr refl))
      ]

  scan-Inv :
      (d : Deps C B) (ttl : Duration) (now : Time) (rows : Dict Request) (s : FeedingService C B)
      → Inv s
      → Inv (scan d ttl now rows s).1
  unfolding scan
  scan-Inv d ttl now [] s v = v
  scan-Inv d ttl now ((k, r) ∷ rows) s v = elim (Bool-cases (is_overdue ttl now r)) [
    | inl late ↦
        rw late (scan-Inv d ttl now rows (time_out d r now s) (time_out-Inv d ttl r now s v late))
    | inr early ↦ rw early (scan-Inv d ttl now rows s v)
  ]

  -- `TimeoutScanRun` keeps the invariant.
  pub timeout_scan_run-Inv :
      (d : Deps C B) (ttl : Duration) (now : Time) (s : FeedingService C B)
      → Inv s
      → Inv (timeout_scan_run d ttl now s).1
  unfolding timeout_scan_run
  timeout_scan_run-Inv d ttl now s v = ground (arith, scan-Inv d ttl now s.requests s v)
