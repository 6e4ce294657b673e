-- ===== src/FeedingService.antt =====
-- The feeding service, go/services/feeding-svc/internal/service/service.go: the state, its
-- transitions and listeners. `C` is the state of the key-value store and `B` the state of billing,
-- both behind their interfaces.
pub mod Admission
pub mod Create
pub mod Handlers
pub mod Frame
pub mod Outcomes
pub mod Invariant
pub mod Saga
pub mod Steps
pub mod Reach
pub mod Settlement
pub mod Qps
pub mod Timeouts
mod Tests
use yunmao.Base.{
  ℕ, suc, ◌+◌, String, append, Bool, true, false, not, ◌&&◌, ◌||◌, Option, none, some, ltb, leb,
  nat_eq, if◌then◌else◌, ℤ, pos, leb_ℤ, ltb_ℤ, Fallible, returns, fails, Action, pure, fail,
  fail_if, ◌>>=◌, ◌>>◌, List, [], ◌∷◌, ◌++◌, ◌==◌, Dict, lookup, insert, erase, Time, Duration,
  sub_time,
}
use yunmao.FeedState.{
  State, created, rejected, accepted, queued, dispatched, acknowledged, succeeded, failed,
  compensated, unknown, transition, state_eq,
}
use yunmao.FeedState
use yunmao.Errors.{AppError, new, system_internal, feed_duplicate_request}
use yunmao.FeedingSafety
use yunmao.Cache

pub record Room : Type 0 where
  pub id : String
  pub cat_id : String
  pub device_id : String
  pub feeding_open : Bool
  pub no_feed_window : Bool

pub record Request : Type 0 where
  pub id : String
  pub user_id : String
  pub room_id : String
  pub cat_id : String
  pub device_id : String
  pub device_command_id : String
  pub amount_grams : ℕ  -- uint32
  pub status : State
  pub idempotency_key : String
  pub reject_reason : String
  pub created_at : Time
  pub updated_at : Time

pub record StateChangeEvent : Type 0 where
  pub feed_request_id : String
  pub from : State
  pub to : State
  pub reason : String
  pub snapshot : Request

pub record BillingReserveInput : Type 0 where
  pub user_id : String
  pub room_id : String
  pub cat_id : String
  pub amount_grams : ℕ  -- uint32
  pub idempotency_key : String

-- The interface BillingHook.
pub record BillingHook (B : Type 0) : Type 0 where
  pub reserve : BillingReserveInput → Action B String String
  pub confirm : String → Action B String (Unit {0})
  pub cancel : String → Action B String (Unit {0})

unfoldable pub noop_billing : {B : Type 0} → BillingHook B
noop_billing = record {
  reserve = λ input. pure "noop";
  confirm = λ receipt. pure tt;
  cancel = λ receipt. pure tt;
}

-- What Create reads of the feature flags' manager.
pub record Flags : Type 0 where
  pub bool : String → Bool → Bool
  pub int : String → String → ℤ → ℤ
  pub string_slice : String → String → List String

-- The fields that the service does not write: the stores behind their interfaces, the flags if
-- there are any, the thresholds of a room, and the outbox mode.
pub record Deps (C B : Type 0) : Type 0 where
  pub store : Cache.Store C
  pub idem : Cache.Idempotent
  pub billing : BillingHook B
  pub flags : Option Flags
  pub safety : String → FeedingSafety.Resolved
  pub outbox_mode : Bool

-- The fields that it writes. `events` is what the listeners have got, the latest one first;
-- `region_qps_bucket` counts by Unix second.
pub record FeedingService (C B : Type 0) : Type 0 where
  pub requests : Dict Request
  pub receipts : Dict String
  pub rooms : Dict Room
  pub region_qps_bucket : List (ℕ × ℕ)
  pub events : List StateChangeEvent
  pub cache : C
  pub billed : B

abbrev pub Method : Type 0 → Type 0 → Type 0 → Type 0
Method C B A = Action (FeedingService C B) AppError A

-- The request after transitionLocked, and the event for the listeners, if the state changed.
unfoldable pub moved :
    Request → State → String → Time → FeedState.Outcome → Request × Option StateChangeEvent
moved r to reason now (FeedState.err e) = (r, none)
moved r to reason now (FeedState.ok next) =
    let r' = record r { status = next; updated_at = now } in
    (
      r',
      some (record {
        feed_request_id = r.id;
        from = r.status;
        to = next;
        reason = reason;
        snapshot = r';
      }),
    )

unfoldable pub transition_locked :
    Request → State → String → Time → Request × Option StateChangeEvent
unfolding moved
transition_locked r to reason now = moved r to reason now (transition r.status to)

abbrev pub emit : Option StateChangeEvent → List StateChangeEvent → List StateChangeEvent
emit none events = events
emit (some e) events = e ∷ events

-- A call of the key-value store, and one of billing, inside the service.
abbrev pub in_cache :
    {C B A : Type 0}
    → Action C String A
    → FeedingService C B
    → Fallible String A × FeedingService C B
in_cache m s = let (r, c) = m s.cache in (r, record s { cache = c })

abbrev pub in_billing :
    {C B A : Type 0}
    → Action B String A
    → FeedingService C B
    → Fallible String A × FeedingService C B
in_billing m s = let (r, b) = m s.billed in (r, record s { billed = b })

module _ {C B : Type 0} where
  unfoldable pub register_room : Room → FeedingService C B → FeedingService C B
  register_room r s = record s { rooms = insert r.id r s.rooms }

  -- `Get`
  unfoldable pub get : String → Method C B Request
  unfolding new
  get id s = elim (lookup id s.requests) [
    | none ↦ (fails (new system_internal "feed request not found"), s)
    | some r ↦ (returns r, s)
  ]

  -- A transition of the request that is stored under its id.
  unfoldable pub advance :
      Request → State → String → Time → FeedingService C B → Request × FeedingService C B
  unfolding transition_locked
  advance r to reason now s =
      let (r', e) = transition_locked r to reason now in
      (r', record s { requests = insert r.id r' s.requests; events = emit e s.events })

  -- The goroutine of Create after its publisher has answered: `none` is success.
  unfoldable pub published : String → Option String → Time → FeedingService C B → FeedingService C B
  unfolding advance
  published id outcome now s = elim (lookup id s.requests) [
    | none ↦ s
    | some r ↦ elim outcome [
      | none ↦ (advance r dispatched "dispatched" now s).1
      | some e ↦ (advance r failed (append "publish failed: " e) now s).1
    ]
  ]

  -- `s.receipts[id]`
  unfoldable pub receipt_of : String → FeedingService C B → String
  receipt_of id s = elim (lookup id s.receipts) [ none ↦ "" | some r ↦ r ]
