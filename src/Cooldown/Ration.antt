-- ===== src/Cooldown/Ration.antt =====
-- A cat's daily ration, and the wrap-around that escapes it.
use yunmao.Base.{
  ℕ, ◌+◌, ◌≤◌, ◌<◌, String, ◌≡◌, Bool, true, false, ◌&&◌, none, List, [], ◌∷◌, arith, if◌then◌else◌,
  ◌==◌, eq_iff, eq_refl, Dict, lookup, insert, lookup-insert, Time, Duration, add32, two32, inl,
  inr,
}
use yunmao.Cooldown.{
  Limiter, Feed, Outcome, ok, user_key, day_key, pending, total_of, over_ration, record_feed,
  consume, new_limiter,
}
use yunmao.Cooldown.Spacing.{run, consume_cases}

abbrev is_ok : Outcome → Bool
is_ok ok = true
is_ok _ = false

-- The grams that the calls of a history feed under one day key: those of the calls that go through.
unfoldable pub fed : Limiter → String → List (Time × Feed) → ℕ
fed l dk [] = 0
fed l dk ((now, f) ∷ calls) =
    (if is_ok (consume l f now).0 && day_key f now == dk then f.amount_gram else 0)
    + fed (consume l f now).1 dk calls

-- No single amount can carry the sum with a full ration past a uint32.
abbrev pub AllSmall : ℕ → List (Time × Feed) → Type 0
AllSmall limit [] = Unit
AllSmall limit ((now, f) ∷ calls) = (limit + f.amount_gram < two32) × AllSmall limit calls

total_of-insert :
    (k j : String) (n : ℕ) (m : Dict ℕ)
    → total_of (insert k n m) j ≡ (if k == j then n else total_of m j)
unfolding total_of
total_of-insert k j n m = ground (arith, lookup-insert k j n m)

-- One call moves the day's total by what it feeds, and keeps it within the ration.
consume_total :
    (l : Limiter) (f : Feed) (now : Time) (dk : String)
    → 0 < l.daily_limit_gram
    → total_of l.daily_total dk ≤ l.daily_limit_gram
    → l.daily_limit_gram + f.amount_gram < two32
    → let (o, l') = consume l f now in
      (l'.daily_limit_gram ≡ l.daily_limit_gram)
      × (total_of l'.daily_total dk
          ≡ total_of l.daily_total dk
            + (if is_ok o && day_key f now == dk then f.amount_gram else 0))
      × (total_of l'.daily_total dk ≤ l.daily_limit_gram)
unfolding record_feed over_ration
consume_total l f now dk p h small = elim (consume_cases l f now) [
  | inl (e, _, _, fits) ↦ rw e (
      ground (
        arith,
        eq_iff (day_key f now) dk,
        total_of-insert (day_key f now) dk
            (add32 (total_of l.daily_total (day_key f now)) f.amount_gram) l.daily_total,
      ))
  | inr (ne, e) ↦ ground arith
]

run_total :
    (l : Limiter) (calls : List (Time × Feed)) (dk : String)
    → 0 < l.daily_limit_gram
    → total_of l.daily_total dk ≤ l.daily_limit_gram
    → AllSmall l.daily_limit_gram calls
    → (total_of (run l calls).daily_total dk ≡ total_of l.daily_total dk + fed l dk calls)
      × (total_of (run l calls).daily_total dk ≤ l.daily_limit_gram)
unfolding run fed
run_total l [] dk p h s = (omega arith, h)
run_total l ((now, f) ∷ calls) dk p h s =
    let step = consume_total l f now dk p h s.0 in
    let l' = (consume l f now).1 in
    let rest = run_total l' calls dk (rw (step.0) p) (rw (step.0) (step.2)) (rw (step.0) (s.1)) in
    (omega (arith, step.1, rest.0), rw step.0 at rest.1)

-- From a new limiter with a ration, the feeds of a cat and day that go through never add up to more
-- than the ration, in any history of calls whose single amounts cannot wrap a uint32.
pub daily_ration :
    (room user : Duration) (limit : ℕ) (calls : List (Time × Feed)) (dk : String)
    → 0 < limit
    → AllSmall limit calls
    → fed (new_limiter room user limit) dk calls ≤ limit
unfolding new_limiter total_of lookup
daily_ration room user limit calls dk p s =
    let (sum, bound) = run_total (new_limiter room user limit) calls dk p (omega arith) s in
    omega (arith, sum, bound)

-- The test adds in uint32: after a first feed of the day, one more feed of 2 ^ 32 minus the day's
-- total is let through whatever the ration is, if no cooldown is pending, and sets the total to 0.
pub ration_wraps :
    (l : Limiter) (f : Feed) (now : Time)
    → pending l.room_next f.room_id now ≡ none
    → pending l.user_next (user_key f) now ≡ none
    → 0 < total_of l.daily_total (day_key f now)
    → total_of l.daily_total (day_key f now) + f.amount_gram ≡ two32
    → ((consume l f now).0 ≡ ok) × (total_of (consume l f now).1.daily_total (day_key f now) ≡ 0)
unfolding consume over_ration
ration_wraps l f now hr hu p w = ground (
  arith,
  eq_refl (day_key f now),
  total_of-insert (day_key f now) (day_key f now)
      (add32 (total_of l.daily_total (day_key f now)) f.amount_gram) l.daily_total,
)
