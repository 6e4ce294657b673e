-- ===== src/FeedStore/Projection.antt =====
-- The store that the listener writes shows the status that the service has.
use yunmao.Base.{
  length, if_true, if_false, ◌||◌, ◌≡◌, refl, ◌∙◌, ap, String, Bool, ◌&&◌, Option, none, some,
  if◌then◌else◌, List, [], ◌∷◌, ◌==◌, lookup, insert, lookup-insert, Time, arith, Option-cases,
  Bool-cases, inl, inr,
}
use yunmao.FeedState.{
  State, created, accepted, queued, dispatched, acknowledged, succeeded, failed, rejected,
  compensated, state_eq, transition,
}
use yunmao.FeedState
use yunmao.FeedingService.{Request, StateChangeEvent}
use yunmao.FeedingService.Invariant.{last_snapshot}
use yunmao.FeedStore.{
  FeedRequest, MemoryStore, Transition, handle, transition_of, create, save_transition, save_found,
  load_by_id, to_store_request, build_outbox_events,
}

abbrev pub status_of : Option FeedRequest → Option State
status_of none = none
status_of (some r) = some r.status

abbrev pub request_status : Option Request → Option State
request_status none = none
request_status (some r) = some r.status

-- The store after the listener has got a list of events, the latest one first, each at an instant.
unfoldable pub persisted : String → List (Time × StateChangeEvent) → MemoryStore
unfolding handle
persisted source [] = []
persisted source ((now, e) ∷ es) = handle source e now (persisted source es)

abbrev pub events_of : List (Time × StateChangeEvent) → List StateChangeEvent
events_of [] = []
events_of ((_, e) ∷ es) = e ∷ events_of es

-- The events are as transitionLocked makes them: of the request that they show, in its new state.
abbrev pub AllFaithful : List StateChangeEvent → Type 0
AllFaithful [] = Unit {0}
AllFaithful (e ∷ es) =
    (e.snapshot.id ≡ e.feed_request_id) × (e.snapshot.status ≡ e.to) × AllFaithful es

insert-status :
    (id k : String) (r : FeedRequest) (m : MemoryStore)
    → status_of (lookup k (insert id r m))
      ≡ (if id == k then some r.status else status_of (lookup k m))
insert-status id k r m = ground (arith, lookup-insert id k r m)

save_transition-status :
    (m : MemoryStore) (t : Transition) (now : Time) (k : String)
    → status_of (lookup k (save_transition m t now))
      ≡ (if t.request.id == k then some t.to else status_of (lookup k m))
unfolding save_transition create save_found
save_transition-status m t now k = elim (Option-cases (lookup t.request.id m)) [
  | inl new ↦
      rw (new, save_transition)
        (insert-status t.request.id k (record t.request { status = t.to; updated_at = now }) m)
  | inr (r, found) ↦ rw (found, save_transition) (insert-status t.request.id k _ m)
]

handle-status :
    (source : String) (e : StateChangeEvent) (now : Time) (m : MemoryStore) (k : String)
    → status_of (lookup k (handle source e now m))
      ≡ (if e.snapshot.id == k then some e.to else status_of (lookup k m))
unfolding handle transition_of create save_transition save_found to_store_request
handle-status source e now m k =
    let t = transition_of source e in
    let wrote = λ (r : FeedRequest). insert-status e.snapshot.id k r m in
    elim (Bool-cases (state_eq e.from created)) [
      | inl first ↦
          ap (λ x. status_of (lookup k x))
            (if_true (state_eq e.from created) (create m t now) _ first)
          ∙ wrote (record t.request { status = t.to; updated_at = now })
      | inr later ↦
          ap (λ x. status_of (lookup k x))
            (if_false (state_eq e.from created) (create m t now) _ later)
          ∙ save_transition-status m t now k
    ]

-- The status that is stored for a request is the one in its latest event, and a request without an
-- event is not stored, if the events are as transitionLocked makes them.
pub load_by_id-persisted :
    (source : String) (es : List (Time × StateChangeEvent)) (k : String)
    → AllFaithful (events_of es)
    → status_of (load_by_id (persisted source es) k)
      ≡ request_status (last_snapshot k (events_of es))
unfolding load_by_id persisted lookup
load_by_id-persisted source [] k h = refl
load_by_id-persisted source ((now, e) ∷ es) k (same, st, h) =
    handle-status source e now (persisted source es) k
    ∙ ground (arith, same, st, load_by_id-persisted source es k h)

-- The allowed moves that no message tells of: the validation, a rejection before the request is
-- queued, and a compensation.
abbrev pub is_silent : State → State → Bool
is_silent from to =
    state_eq to accepted
    || state_eq to compensated
    || (state_eq to rejected && (state_eq from created || state_eq from accepted))

-- An allowed move makes no message if it is silent, and exactly one otherwise.
pub length-build_outbox_events :
    (source : String) (e : StateChangeEvent)
    → transition e.from e.to ≡ FeedState.ok e.to
    → length (build_outbox_events source e) ≡ (if is_silent e.from e.to then 0 else 1)
unfolding build_outbox_events transition
length-build_outbox_events source e h = ground arith
