-- ===== src/FeedingService/Admission.antt =====
-- The input of Create, its limit of requests per second and region, and its tests of the input.
use yunmao.Base.{
  ℕ, suc, ◌+◌, String, append, Bool, true, false, not, ◌&&◌, ◌||◌, Option, none, some, ltb, nat_eq,
  if◌then◌else◌, ℤ, pos, leb_ℤ, Fallible, returns, fails, Action, List, [], ◌∷◌, ◌==◌, Dict, Time,
}
use yunmao.Errors.{AppError, Code, new, feed_cooldown_not_finished, feed_health_limit_hit}
use yunmao.Cache.Cooling.{Portion, Cooldown, check, consume}
use yunmao.Cache.Cooling
use yunmao.FeedingService.{Room, Request, Flags}

pub record CreateInput : Type 0 where
  pub user_id : String
  pub room_id : String
  pub amount_grams : ℕ  -- uint32
  pub idempotency_key : String

-- What Create takes from the clock and from ids.New, in the order it takes it.
pub record Draws : Type 0 where
  pub unix : ℕ
  pub check_at : Time
  pub consume_at : Time
  pub until_at : Time
  pub now : Time
  pub id : String
  pub device_command_id : String
  pub accepted_at : Time
  pub queued_at : Time
  pub dispatched_at : Time

unfoldable pub bucket_count : ℕ → List (ℕ × ℕ) → ℕ
bucket_count k [] = 0
bucket_count k ((j, c) ∷ rows) = if nat_eq j k then c else bucket_count k rows

unfoldable pub set_bucket : ℕ → ℕ → List (ℕ × ℕ) → List (ℕ × ℕ)
set_bucket k c [] = (k, c) ∷ []
set_bucket k c ((j, n) ∷ rows) =
    let rest = set_bucket k c rows in if nat_eq j k then (k, c) ∷ rows else (j, n) ∷ rest

-- The buckets that are not older than five seconds.
unfoldable pub drop_old : ℕ → List (ℕ × ℕ) → List (ℕ × ℕ)
drop_old now [] = []
drop_old now ((j, n) ∷ rows) =
    let rest = drop_old now rows in if ltb (j + 5) now then rest else (j, n) ∷ rest

unfoldable pub allow_region_qps : ℕ → ℤ → List (ℕ × ℕ) → Bool × List (ℕ × ℕ)
unfolding bucket_count set_bucket drop_old
allow_region_qps now per_second buckets =
    let rows = drop_old now buckets in
    let c = bucket_count now rows in
    if leb_ℤ per_second (pos c) then (false, rows) else (true, set_bucket now (suc c) rows)

unfoldable pub is_listed : String → List String → Bool
is_listed x [] = false
is_listed x (d ∷ ds) = d == x || is_listed x ds

-- The test of the maintenance list on the room, if there is one with a device.
unfoldable pub in_maintenance : Flags → Option Room → Bool
unfolding is_listed
in_maintenance f none = false
in_maintenance f (some room) =
    not (room.device_id == "")
    && is_listed room.device_id (f.string_slice "feeding.device_maintenance" "device_ids")

-- The first request of a loop over the map that has the idempotency key.
unfoldable pub find_by_key : String → Dict Request → Option Request
find_by_key k [] = none
find_by_key k ((_, r) ∷ rows) =
    let later = find_by_key k rows in if r.idempotency_key == k then some r else later

-- The error for an outcome of the limiter that is not OK.
unfoldable pub blocked : Cooling.Outcome → Option AppError
unfolding new
blocked Cooling.ok = none
blocked Cooling.blocked_room = some (new feed_cooldown_not_finished "cooldown not finished")
blocked Cooling.blocked_user = some (new feed_cooldown_not_finished "cooldown not finished")
blocked Cooling.blocked_daily = some (new feed_health_limit_hit "daily limit reached")

unfoldable pub lost_race : Cooling.Outcome → Bool
lost_race Cooling.ok = false
lost_race _ = true

unfoldable pub missing_field : CreateInput → Bool
missing_field input =
    input.user_id == ""
    || input.room_id == ""
    || nat_eq input.amount_grams 0
    || input.idempotency_key == ""

-- An error of a dependency, under a prefix.
abbrev pub or_error :
    {S A : Type 0} → Code → String → Fallible String A × S → Fallible AppError A × S
or_error code prefix (returns a, s) = (returns a, s)
or_error code prefix (fails e, s) =
    (fails (record { code = code; message = append prefix e; remediation = ""; trace_id = "" }), s)

abbrev pub or_fail : {S A : Type 0} → Option A → AppError → Action S AppError A
or_fail none e s = (fails e, s)
or_fail (some a) e s = (returns a, s)

abbrev pub fail_with : {S : Type 0} → Option AppError → Action S AppError (Unit {0})
fail_with none s = (returns tt, s)
fail_with (some e) s = (fails e, s)
