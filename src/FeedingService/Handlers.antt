-- ===== src/FeedingService/Handlers.antt =====
-- HandleAck, Cancel and TimeoutScanRun of go/services/feeding-svc/internal/service/service.go.
use yunmao.Base.{
  ℕ, suc, String, append, Bool, true, false, not, ◌&&◌, ◌||◌, none, some, if◌then◌else◌, pos, leb_ℤ,
  ltb_ℤ, Fallible, returns, fails, Action, ◌>>=◌, [], ◌∷◌, ◌==◌, Dict, lookup, erase, Time,
  Duration, sub_time,
}
use yunmao.FeedState.{
  State, created, rejected, accepted, queued, dispatched, acknowledged, succeeded, failed,
  compensated, unknown, state_eq,
}
use yunmao.Errors.{new, system_internal, feed_duplicate_request}
use yunmao.Cache
use yunmao.FeedingService.{
  Request, Deps, FeedingService, Method, in_billing, in_cache, advance, receipt_of,
}

-- `string(r.Status)`. No request gets a status that is none of the nine.
unfoldable pub state_text : State → String
state_text created = "created"
state_text rejected = "rejected"
state_text accepted = "accepted"
state_text queued = "queued"
state_text dispatched = "dispatched"
state_text acknowledged = "acknowledged"
state_text succeeded = "succeeded"
state_text failed = "failed"
state_text compensated = "compensated"
state_text unknown = ""

unfoldable pub ack_target : String → State
ack_target status = if status == "succeeded" then succeeded else failed

-- The tests of TimeoutScanRun on a request.
unfoldable pub is_overdue : Duration → Time → Request → Bool
is_overdue ttl now r =
    (state_eq r.status dispatched || state_eq r.status queued)
    && not (ltb_ℤ (sub_time now r.updated_at) ttl)

module _ {C B : Type 0} where
  -- The call of billing once the request has its final status; an error of it is dropped.
  unfoldable pub settle : Deps C B → String → State → FeedingService C B → FeedingService C B
  settle d receipt final s =
      if receipt == ""
      then s
      else if state_eq final succeeded
      then (in_billing (d.billing.confirm receipt) s).1
      else if state_eq final failed
      then (in_billing (d.billing.cancel receipt) s).1
      else s

  -- The two moves of HandleAck, each under its test of the state.
  unfoldable pub acknowledge : Request → Time → FeedingService C B → Request × FeedingService C B
  unfolding advance
  acknowledge r now s =
      if state_eq r.status dispatched
      then advance r acknowledged "device ack received" now s
      else (r, s)

  unfoldable pub complete :
      Request → String → Time → FeedingService C B → Request × FeedingService C B
  unfolding advance ack_target
  complete r status now s =
      if state_eq r.status acknowledged
      then advance r (ack_target status) (append "ack: " status) now s
      else (r, s)

  -- HandleAck on the request that was found.
  unfoldable pub ack_found :
      Deps C B → Request → String → Time → FeedingService C B → FeedingService C B
  unfolding acknowledge complete settle receipt_of
  ack_found d r status now s =
      let (r1, s1) = acknowledge r now s in
      let (r2, s2) = complete r1 status now s1 in
      settle d (receipt_of r.id s2) r2.status (record s2 { receipts = erase r.id s2.receipts })

  -- HandleAck once the idempotency key is tested; `gateway` is what PublishGatewayEvent returns.
  unfoldable pub handle_new_ack :
      Deps C B
      → String
      → String
      → Time
      → Fallible String (Unit {0})
      → Bool
      → Action (FeedingService C B) String (Unit {0})
  unfolding ack_found
  handle_new_ack d id status now gateway false s = (returns tt, s)
  handle_new_ack d id status now gateway true s = elim (lookup id s.requests) [
    | none ↦ (returns tt, s)
    | some r ↦ (if d.outbox_mode then returns tt else gateway, ack_found d r status now s)
  ]

  unfoldable pub handle_ack :
      Deps C B
      → String
      → String
      → String
      → Time
      → Fallible String (Unit {0})
      → Action (FeedingService C B) String (Unit {0})
  unfolding handle_new_ack Cache.insert_once
  handle_ack d command id status now gateway = do
    first ← in_cache (Cache.insert_once d.store d.idem "ack" command)
    handle_new_ack d id status now gateway first

  -- `if receiptID != "" { _ = s.billing.Cancel(ctx, receiptID) }`
  unfoldable pub give_back : Deps C B → String → FeedingService C B → FeedingService C B
  give_back d receipt s = if receipt == "" then s else (in_billing (d.billing.cancel receipt) s).1

  -- Cancel on the request that was found, once its state allows it.
  unfoldable pub cancel_request :
      Deps C B → Request → String → Time → FeedingService C B → Request × FeedingService C B
  unfolding advance receipt_of give_back
  cancel_request d r reason now s =
      let why = if reason == "" then "cancelled" else reason in
      let (r1, s1) = advance (record r { reject_reason = why }) rejected why now s in
      (r1, give_back d (receipt_of r.id s1) (record s1 { receipts = erase r.id s1.receipts }))

  unfoldable pub cancel : Deps C B → String → String → Time → Method C B Request
  unfolding cancel_request new state_text
  cancel d id reason now s =
      if id == ""
      then (fails (new system_internal "feed_request_id required"), s)
      else elim (lookup id s.requests) [
        | none ↦ (fails (new system_internal "feed request not found"), s)
        | some r ↦
            if not (state_eq r.status queued) && not (state_eq r.status dispatched)
            then (
              fails (
                  new feed_duplicate_request
                    (append "not cancellable in current state: " (state_text r.status))),
              s,
            )
            else (let (r1, s1) = cancel_request d r reason now s in (returns r1, s1))
      ]

  unfoldable pub time_out : Deps C B → Request → Time → FeedingService C B → FeedingService C B
  unfolding advance receipt_of give_back
  time_out d r now s =
      let s1 = (advance (record r { reject_reason = "timeout" }) failed "timeout" now s).1 in
      let receipt = receipt_of r.id s1 in
      if receipt == ""
      then s1
      else give_back d receipt (record s1 { receipts = erase r.id s1.receipts })

  -- The loop over the requests; a step changes no other request than its own.
  unfoldable pub scan :
      Deps C B → Duration → Time → Dict Request → FeedingService C B → ℕ × FeedingService C B
  unfolding is_overdue time_out
  scan d ttl now [] s = (0, s)
  scan d ttl now ((k, r) ∷ rows) s =
      let kept = scan d ttl now rows s in
      let hit = scan d ttl now rows (time_out d r now s) in
      if is_overdue ttl now r then (suc hit.0, hit.1) else kept

  unfoldable pub timeout_scan_run :
      Deps C B → Duration → Time → FeedingService C B → ℕ × FeedingService C B
  unfolding scan
  timeout_scan_run d ttl now s = if leb_ℤ ttl (pos 0) then (0, s) else scan d ttl now s.requests s
