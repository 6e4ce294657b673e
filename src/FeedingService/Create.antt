-- ===== src/FeedingService/Create.antt =====
-- Create of the feeding service, step by step.
use yunmao.Base.{
  String, append, Bool, true, false, not, ◌&&◌, Option, none, some, if◌then◌else◌, pos, ltb_ℤ,
  returns, fails, pure, fail, fail_if, ◌>>=◌, ◌>>◌, lookup, insert,
}
use yunmao.FeedState.{created, accepted, queued, dispatched}
use yunmao.Errors.{
  new, system_internal, system_dependency_unavailable, system_rate_limited, feed_duplicate_request,
  feed_device_offline, feed_no_feed_window, feed_cooldown_not_finished, room_not_found,
  risk_action_blocked, pay_channel_failed,
}
use yunmao.FeedingSafety
use yunmao.Cache
use yunmao.Cache.Cooling.{Portion, Cooldown, check, consume}
use yunmao.FeedingService.{
  Room, Request, Deps, Flags, FeedingService, Method, BillingReserveInput, in_cache, in_billing,
  transition_locked, emit, advance,
}
use yunmao.FeedingService.Admission.{
  CreateInput, Draws, allow_region_qps, in_maintenance, find_by_key, blocked, lost_race,
  missing_field, or_error, or_fail, fail_with,
}

module _ {C B : Type 0} (d : Deps C B) (input : CreateInput) (draws : Draws) where
  unfoldable pub check_qps : Flags → Method C B (Unit {0})
  unfolding allow_region_qps new
  check_qps f s =
      let limit = f.int "feeding.region_qps_limit" "per_region" (pos 200) in
      let (ok, buckets) = allow_region_qps draws.unix limit s.region_qps_bucket in
      if f.bool "feeding.region_qps_limit" true && ltb_ℤ (pos 0) limit
      then (
        if ok then returns tt else fails (new system_rate_limited "region qps limit reached"),
        record s { region_qps_bucket = buckets },
      )
      else (returns tt, s)

  unfoldable pub check_flags : Option Flags → Method C B (Unit {0})
  unfolding in_maintenance check_qps new
  check_flags none s = (returns tt, s)
  check_flags (some f) s =
      if not (f.bool "feeding.allow_new_rooms" true)
      then (fails (new risk_action_blocked "feeding currently disabled by feature flag"), s)
      else if in_maintenance f (lookup input.room_id s.rooms)
      then (fails (new feed_device_offline "device under maintenance"), s)
      else check_qps f s

  -- A repeated key: the request that was made under it.
  unfoldable pub replay : Method C B Request
  unfolding find_by_key new
  replay s =
      or_fail (find_by_key input.idempotency_key s.requests)
        (new feed_duplicate_request "duplicate request without record") s

  unfoldable pub portion : Room → Portion
  portion room = record {
    room_id = input.room_id;
    user_id = input.user_id;
    cat_id = room.cat_id;
    amount_gram = input.amount_grams;
  }

  unfoldable pub cooldown : FeedingSafety.Limits → Cooldown
  cooldown limits = record {
    room_cooldown = limits.room_cooldown;
    user_cooldown = limits.user_room_cooldown;
    daily_limit_gram = limits.cat_daily_limit;
  }

  unfoldable pub open_room : Method C B Room
  unfolding new
  open_room = do
    room ← λ s. or_fail (lookup input.room_id s.rooms) (new room_not_found "room not found") s
    fail_if (not room.feeding_open) (new feed_no_feed_window "feeding closed")
    fail_if room.no_feed_window (new feed_no_feed_window "no-feed window")
    pure room

  unfoldable pub resolved : FeedingSafety.Resolved → Method C B FeedingSafety.Limits
  unfolding new
  resolved (FeedingSafety.ok limits) = pure limits
  resolved (FeedingSafety.err e) = fail (new system_dependency_unavailable (append "safety: " e))

  -- The dry run of the limiter, and then its count.
  unfoldable pub pass_limiter : Room → FeedingSafety.Limits → Method C B (Unit {0})
  unfolding portion cooldown blocked lost_race new check consume
  pass_limiter room limits = do
    (out, _) ← λ s.
        or_error system_dependency_unavailable "cooldown check: "
          (in_cache (check d.store (cooldown limits) (portion room) draws.check_at) s)
    fail_with (blocked out)
    c ← λ s. or_error system_dependency_unavailable "cooldown consume: " (
        in_cache (consume d.store (cooldown limits) (portion room) draws.consume_at draws.until_at)
          s)
    fail_if (lost_race c) (new feed_cooldown_not_finished "lost race on cooldown")

  unfoldable pub reservation : Room → BillingReserveInput
  reservation room = record {
    user_id = input.user_id;
    room_id = input.room_id;
    cat_id = room.cat_id;
    amount_grams = input.amount_grams;
    idempotency_key = input.idempotency_key;
  }

  unfoldable pub reserve_funds : Room → Method C B String
  unfolding new reservation
  reserve_funds room s =
      or_error pay_channel_failed "billing reserve: "
        (in_billing (d.billing.reserve (reservation room)) s)

  unfoldable pub new_request : Room → Request
  new_request room = record {
    id = draws.id;
    user_id = input.user_id;
    room_id = input.room_id;
    cat_id = room.cat_id;
    device_id = room.device_id;
    device_command_id = draws.device_command_id;
    amount_grams = input.amount_grams;
    status = created;
    idempotency_key = input.idempotency_key;
    reject_reason = "";
    created_at = draws.now;
    updated_at = draws.now;
  }

  -- The moves of the new request. Without the outbox the goroutine of `published` makes the last.
  unfoldable pub register : Room → String → FeedingService C B → Request × FeedingService C B
  unfolding new_request transition_locked advance
  register room receipt s =
      let (r1, e1) = transition_locked (new_request room) accepted "validated" draws.accepted_at in
      let s1 = record s {
        receipts = insert draws.id receipt s.receipts;
        requests = insert draws.id r1 s.requests;
        events = emit e1 s.events;
      } in
      let (r2, s2) = advance r1 queued "queued to device-edge" draws.queued_at s1 in
      if d.outbox_mode
      then advance r2 dispatched "dispatched via outbox" draws.dispatched_at s2
      else (r2, s2)

  -- The reservation, and the new request.
  unfoldable pub book : Room → Method C B Request
  unfolding reserve_funds register
  book room = do
    receipt ← reserve_funds room
    λ s. (returns (register room receipt s).0, (register room receipt s).1)

  unfoldable pub limit : Room → FeedingSafety.Limits → Method C B Request
  unfolding pass_limiter book
  limit room limits = do pass_limiter room limits; book room

  unfoldable pub admit : Room → Method C B Request
  unfolding resolved limit
  admit room = do limits ← resolved (d.safety input.room_id); limit room limits

  -- Create after the idempotency key was seen for the first time.
  unfoldable pub create_first : Method C B Request
  unfolding open_room admit
  create_first = do room ← open_room; admit room

  unfoldable pub claim_key : Method C B Bool
  unfolding Cache.insert_once
  claim_key s =
      or_error system_dependency_unavailable "idem check: "
        (in_cache (Cache.insert_once d.store d.idem "feed" input.idempotency_key) s)

  unfoldable pub first_or_replay : Bool → Method C B Request
  unfolding create_first replay
  first_or_replay true = create_first
  first_or_replay false = replay

  unfoldable pub create_keyed : Method C B Request
  unfolding claim_key first_or_replay
  create_keyed = do first ← claim_key; first_or_replay first

  unfoldable pub create_allowed : Method C B Request
  unfolding check_flags create_keyed
  create_allowed = do check_flags d.flags; create_keyed

  unfoldable pub create : Method C B Request
  unfolding missing_field create_allowed new
  create = do
    fail_if (missing_field input) (new system_internal "missing required field")
    create_allowed
