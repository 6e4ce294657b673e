-- ===== src/FeedingService/Tests.antt =====
-- Tests of the feeding service, and its theorems at concrete inputs. Billing is a list of its calls.
use yunmao.Base.{
  insert, add_time, format_day, ◌+◌, ◌≤◌, ◌≢◌, ◌≡◌, refl, inr, append, String, true, false, some,
  none, List, [], ◌∷◌, if◌then◌else◌, ◌==◌, eq_iff, arith, pos, pos_part, lookup, returns,
}
use yunmao.FeedState.{transition, State, dispatched, rejected}
use yunmao.FeedingSafety
use yunmao.FeedingSafety.{default_global}
use yunmao.Cache.Memory.{MemoryStore, memory_store}
use yunmao.FeedingService.{Room, Request, BillingHook, Deps, FeedingService, receipt_of}
use yunmao.FeedingService.Handlers.{
  ack_target, ack_found, cancel_request, handle_ack, timeout_scan_run,
}
use yunmao.FeedingService.Create.{create}
use yunmao.FeedingService.Admission.{CreateInput, Draws, bucket_count}
use yunmao.FeedingService.Outcomes.{Ending, create-Ending}
use yunmao.FeedingService.Invariant.{Inv}
use yunmao.FeedingService.Reach.{creates, acks, done, more, fresh, Reaches-Inv}
use yunmao.FeedingService.Settlement.{ack_found-settle, cancel_request-give_back}
use yunmao.FeedingService.Qps.{allowed_calls, allowed_calls-allow_region_qps}
use yunmao.FeedingService.Timeouts.{IsKeyed, scanned, overdue_count, timeout_scan_run-scanned}

abbrev hook : BillingHook (List String)
hook = record {
  reserve = λ input b. (returns "hold_1", "reserve" ∷ b);
  confirm = λ receipt b. (returns tt, append "confirm " receipt ∷ b);
  cancel = λ receipt b. (returns tt, append "cancel " receipt ∷ b);
}

abbrev deps : Deps MemoryStore (List String)
deps = record {
  store = memory_store;
  idem = record { ttl = pos 172800000000000 };
  billing = hook;
  flags = none;
  safety = λ room. FeedingSafety.ok default_global;
  outbox_mode = true;
}

abbrev room : Room
room = record {
  id = "room_demo";
  cat_id = "cat_demo";
  device_id = "dev_demo";
  feeding_open = true;
  no_feed_window = false;
}

abbrev input : CreateInput
input = record { user_id = "u"; room_id = "room_demo"; amount_grams = 5; idempotency_key = "k" }

abbrev draws : Draws
draws = record {
  unix = 7;
  check_at = 1;
  consume_at = 2;
  until_at = 3;
  now = 4;
  id = "feed_1";
  device_command_id = "cmd_1";
  accepted_at = 5;
  queued_at = 6;
  dispatched_at = 7;
}

abbrev start : FeedingService MemoryStore (List String)
start = fresh (("room_demo", room) ∷ []) (record { m = []; now = 1 }) []

abbrev request : State → Request
request st = record {
  id = "feed_1";
  user_id = "u";
  room_id = "room_demo";
  cat_id = "cat_demo";
  device_id = "dev_demo";
  device_command_id = "cmd_1";
  amount_grams = 5;
  status = st;
  idempotency_key = "k";
  reject_reason = "";
  created_at = 4;
  updated_at = 7;
}

-- A service with one dispatched request and its receipt.
abbrev waiting : FeedingService MemoryStore (List String)
waiting = record start {
  requests = ("feed_1", request dispatched) ∷ [];
  receipts = ("feed_1", "hold_1") ∷ [];
}

waiting_receipt : receipt_of "feed_1" waiting ≡ "hold_1"
unfolding receipt_of lookup
waiting_receipt = refl

has_receipt : receipt_of "feed_1" waiting ≢ ""
unfolding receipt_of lookup
has_receipt = ground (arith, eq_iff "hold_1" "")

create-Ending_example : Ending deps input draws start (create deps input draws start)
create-Ending_example = create-Ending deps input draws start

Reaches-Inv_example :
    Inv
      (handle_ack deps "cmd_1" "feed_1" "succeeded" 9
        (returns tt)
        (create deps input draws start).1).1
Reaches-Inv_example =
    Reaches-Inv deps (("room_demo", room) ∷ []) (record { m = []; now = 1 }) []
      (handle_ack deps "cmd_1" "feed_1" "succeeded" 9 (returns tt)
        (create deps input draws start).1).1
      refl
      (more start (create deps input draws start).1 _
        (more start start _ (done start) (creates input draws start))
        (acks "cmd_1" "feed_1" "succeeded" 9 (returns tt) (create deps input draws start).1))

ack_found-settle_example :
    let t = ack_found deps (request dispatched) "succeeded" 9 waiting in
    (lookup "feed_1" t.requests
      ≡ some (record (request dispatched) { status = ack_target "succeeded"; updated_at = 9 }))
    × (receipt_of "feed_1" t ≡ "")
    × (t.billed ≡ (
        if "succeeded" == "succeeded"
        then (hook.confirm (receipt_of "feed_1" waiting) []).1
        else (hook.cancel (receipt_of "feed_1" waiting) []).1))
ack_found-settle_example =
    ack_found-settle deps (request dispatched) "succeeded" 9 waiting refl has_receipt

cancel_request-give_back_example :
    let t = (cancel_request deps (request dispatched) "" 9 waiting).1 in
    (lookup "feed_1" t.requests
      ≡ some (record (request dispatched) {
        reject_reason = "cancelled";
        status = rejected;
        updated_at = 9;
      }))
    × (receipt_of "feed_1" t ≡ "")
    × (t.billed ≡ (
        if receipt_of "feed_1" waiting == ""
        then []
        else (hook.cancel (receipt_of "feed_1" waiting) []).1))
cancel_request-give_back_example =
    cancel_request-give_back deps (request dispatched) "" 9 waiting (inr refl)

waiting-IsKeyed : IsKeyed (waiting).requests
unfolding lookup
waiting-IsKeyed = (refl, refl, tt)

timeout_scan_run-scanned_example :
    let (n, t) = timeout_scan_run deps (pos 2) 9 waiting in
    (lookup "feed_1" t.requests ≡ scanned (pos 2) 9 (lookup "feed_1" (waiting).requests))
    × (n ≡ overdue_count (pos 2) 9 (waiting).requests)
timeout_scan_run-scanned_example =
    timeout_scan_run-scanned deps (pos 2) 9 waiting "feed_1" waiting-IsKeyed refl

none_counted : bucket_count 7 [] ≤ pos_part (pos 2)
unfolding bucket_count
none_counted = omega arith

allowed_calls-allow_region_qps_example : bucket_count 7 [] + allowed_calls 5 7 (pos 2) [] ≤ 2
allowed_calls-allow_region_qps_example = allowed_calls-allow_region_qps 5 7 (pos 2) [] none_counted

-- Create on the empty service: the request is dispatched, and billing was asked once.
create_run : lookup "feed_1" (create deps input draws start).1.requests ≡ some (request dispatched)
unfolding create lookup memory_store insert add_time default_global format_day transition
create_run = refl
