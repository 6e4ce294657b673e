-- ===== src/FeedStore.antt =====
-- The persisted view of feed requests: the in-process store, MemoryStore of
-- go/services/feeding-svc/internal/store/store.go, and the listener that writes every change of
-- state to it, go/services/feeding-svc/internal/service/outbox_listener.go.
pub mod Projection
mod Tests
use yunmao.Base.{
  ℕ, String, Bool, true, false, ◌&&◌, ◌||◌, Option, none, some, if◌then◌else◌, List, [], ◌∷◌, ◌==◌,
  Dict, lookup, insert, Time, second, format_instant, ◌+◌, ◌*◌, ◌/◌,
}
use yunmao.FeedState.{
  State, created, rejected, accepted, queued, dispatched, acknowledged, succeeded, failed, state_eq,
}
use yunmao.EventBus.{
  Topic, feed_command_requested, feed_command_dispatched, feed_command_acked,
  feed_command_completed, feed_command_failed, feed_command_cancelled,
}
use yunmao.FeedingService.{Request, StateChangeEvent}

pub record FeedRequest : Type 0 where
  pub id : String
  pub user_id : String
  pub room_id : String
  pub cat_id : String
  pub device_id : String
  pub device_command_id : String
  pub amount_grams : ℕ  -- uint32
  pub status : State
  pub idempotency_key : String
  pub reject_reason : String
  pub region_id : String
  pub created_at : Time
  pub updated_at : Time

-- The fields of a payload; a payload that has no such field leaves it empty.
pub record Payload : Type 0 where
  pub feed_request_id : String
  pub device_command_id : String
  pub device_id : String
  pub room_id : String
  pub amount_grams : ℕ
  pub motor_duration_ms : ℕ
  pub expires_at : String
  pub reason : String

-- An outbox message: the subject of its cloud event is the request's number.
pub record OutboxEvent : Type 0 where
  pub topic : Topic
  pub partition_key : String
  pub source : String
  pub subject : String
  pub payload : Payload

pub record Transition : Type 0 where
  pub request : FeedRequest
  pub from : State
  pub to : State
  pub reason : String
  pub actor : String
  pub outbox_events : List OutboxEvent

abbrev pub MemoryStore : Type 0
MemoryStore = Dict FeedRequest

-- `Create` and `SaveTransition`; they return no error. `now` is the clock.
unfoldable pub create : MemoryStore → Transition → Time → MemoryStore
create m t now = insert t.request.id (record t.request { status = t.to; updated_at = now }) m

unfoldable pub save_found : MemoryStore → Transition → Time → FeedRequest → MemoryStore
save_found m t now r =
    insert t.request.id
      (record r {
        status = t.to;
        updated_at = now;
        reject_reason = if t.reason == "" then r.reject_reason else t.reason;
      })
      m

unfoldable pub save_transition : MemoryStore → Transition → Time → MemoryStore
unfolding save_found create
save_transition m t now = elim (lookup t.request.id m) [
  | none ↦ create m t now
  | some r ↦ save_found m t now r
]

-- `LoadByID`: `none` is ErrNotFound.
unfoldable pub load_by_id : MemoryStore → String → Option FeedRequest
load_by_id m id = lookup id m

-- `ListByRoom` and `ListByDevice`, by the test of the loop; neither uses its limit.
list_where : (FeedRequest → Bool) → MemoryStore → List FeedRequest
list_where keep [] = []
list_where keep ((_, r) ∷ m) = let rest = list_where keep m in if keep r then r ∷ rest else rest

unfoldable pub list_by_room : MemoryStore → String → List FeedRequest
unfolding list_where
list_by_room m room = list_where (λ r. r.room_id == room) m

unfoldable pub list_by_device : MemoryStore → String → List FeedRequest
unfolding list_where
list_by_device m device = list_where (λ r. r.device_id == device) m

unfoldable pub to_store_request : Request → FeedRequest
to_store_request r = record {
  id = r.id;
  user_id = r.user_id;
  room_id = r.room_id;
  cat_id = r.cat_id;
  device_id = r.device_id;
  device_command_id = r.device_command_id;
  amount_grams = r.amount_grams;
  status = r.status;
  idempotency_key = r.idempotency_key;
  reject_reason = r.reject_reason;
  region_id = "";
  created_at = r.created_at;
  updated_at = r.updated_at;
}

unfoldable pub ce : Topic → String → String → String → Payload → OutboxEvent
ce topic partition_key source subject payload = record {
  topic = topic;
  partition_key = partition_key;
  source = source;
  subject = subject;
  payload = payload;
}

-- A payload of a request with or without its device and room, its grams and a reason.
abbrev payload_of : Request → String → String → ℕ → String → Payload
payload_of r device room grams reason = record {
  feed_request_id = r.id;
  device_command_id = r.device_command_id;
  device_id = device;
  room_id = room;
  amount_grams = grams;
  motor_duration_ms = 0;
  expires_at = "";
  reason = reason;
}

-- FeedCommandRequested, which expires 30 seconds after the request's last change; the layout shows
-- whole seconds.
unfoldable pub command_of : Request → Payload
unfolding format_instant
command_of r =
    let expires = (r.updated_at + 30 * second) / second * second in
    record (payload_of r r.device_id r.room_id r.amount_grams "") {
      motor_duration_ms = 1200;
      expires_at = format_instant expires;
    }

unfoldable pub build_outbox_events : String → StateChangeEvent → List OutboxEvent
unfolding ce command_of
build_outbox_events source ev =
    let r = ev.snapshot in
    if state_eq ev.from accepted && state_eq ev.to queued
    then ce feed_command_requested r.device_id source r.id (command_of r) ∷ []
    else if state_eq ev.from queued && state_eq ev.to dispatched
    then ce feed_command_dispatched r.room_id source r.id
        (payload_of r r.device_id r.room_id r.amount_grams "")
      ∷ []
    else if state_eq ev.from dispatched && state_eq ev.to acknowledged
    then ce feed_command_acked r.room_id source r.id (payload_of r "" r.room_id 0 "") ∷ []
    else if state_eq ev.from acknowledged && state_eq ev.to succeeded
    then ce feed_command_completed r.room_id source r.id
        (payload_of r "" r.room_id r.amount_grams "")
      ∷ []
    else if state_eq ev.to failed
    then ce feed_command_failed r.room_id source r.id
        (payload_of r r.device_id r.room_id 0 ev.reason)
      ∷ []
    else if state_eq ev.to rejected && (state_eq ev.from queued || state_eq ev.from dispatched)
    then ce feed_command_cancelled r.device_id source r.id
        (payload_of r r.device_id r.room_id 0 ev.reason)
      ∷ []
    else []

unfoldable pub transition_of : String → StateChangeEvent → Transition
unfolding to_store_request build_outbox_events
transition_of source ev = record {
  request = to_store_request ev.snapshot;
  from = ev.from;
  to = ev.to;
  reason = ev.reason;
  actor = source;
  outbox_events = build_outbox_events source ev;
}

-- `Handle`
unfoldable pub handle : String → StateChangeEvent → Time → MemoryStore → MemoryStore
unfolding transition_of create save_transition
handle source ev now m =
    if state_eq ev.from created
    then create m (transition_of source ev) now
    else save_transition m (transition_of source ev) now
