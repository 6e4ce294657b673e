-- ===== src/FeedStore/Tests.antt =====
-- Tests of the persisted view, and its theorems at concrete inputs.
use yunmao.Base.{◌≡◌, refl, List, [], ◌∷◌, Time}
use yunmao.FeedState.{State, created, accepted, queued}
use yunmao.FeedingService.{Request, StateChangeEvent}
use yunmao.FeedingService.Invariant.{last_snapshot}
use yunmao.FeedStore.{load_by_id, command_of}
use yunmao.FeedStore.Projection.{
  status_of, request_status, persisted, events_of, load_by_id-persisted,
}

abbrev request : State → Request
request st = record {
  id = "feed_1";
  user_id = "u";
  room_id = "room_demo";
  cat_id = "cat_demo";
  device_id = "dev_demo";
  device_command_id = "cmd_1";
  amount_grams = 5;
  status = st;
  idempotency_key = "k";
  reject_reason = "";
  created_at = 7;
  updated_at = 8;
}

abbrev event : State → State → StateChangeEvent
event from to = record {
  feed_request_id = "feed_1";
  from = from;
  to = to;
  reason = "";
  snapshot = request to;
}

abbrev history : List (Time × StateChangeEvent)
history = (9, event accepted queued) ∷ (8, event created accepted) ∷ []

load_by_id-persisted_example :
    status_of (load_by_id (persisted "feeding-svc" history) "feed_1")
    ≡ request_status (last_snapshot "feed_1" (events_of history))
load_by_id-persisted_example =
    load_by_id-persisted "feeding-svc" history "feed_1" (refl, refl, (refl, refl, tt))

-- The request changed 8 nanoseconds after the zero time.
command_expires : (command_of (request queued)).expires_at ≡ "0001-01-01T00:00:30Z"
unfolding command_of
command_expires = refl
