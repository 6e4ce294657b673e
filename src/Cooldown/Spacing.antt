-- ===== src/Cooldown/Spacing.antt =====
-- The dry run agrees with the real one, and two feeds of a room are a cooldown apart.
use yunmao.Base.{
  String, ◌≡◌, ◌≢◌, ◌⊎◌, ◌<◌, false, none, some, List, [], ◌∷◌, arith, eq_iff, lookup,
  lookup-insert, lookup-insert_self, Time, add_time,
}
use yunmao.Cooldown.{
  Limiter, Feed, ok, blocked_room, user_key, day_key, pending, over_ration, check, record_feed,
  consume,
}

-- `Check` foretells `Consume` at the same instant, and a feed that is blocked changes nothing.
pub consume-check :
    (l : Limiter) (f : Feed) (now : Time)
    → ((consume l f now).0 ≡ (check l f now).0)
      × ((consume l f now).0 ≢ ok → (consume l f now).1 ≡ l)
unfolding consume check
consume-check l f now = (ground arith, λ h. ground arith)

-- Two ways a call can end: the feed is recorded, or the limiter stays as it was.
pub consume_cases :
    (l : Limiter) (f : Feed) (now : Time)
    → ((consume l f now ≡ (ok, record_feed l f now))
        × (pending l.room_next f.room_id now ≡ none)
        × (pending l.user_next (user_key f) now ≡ none)
        × (over_ration l (day_key f now) f.amount_gram ≡ false))
      ⊎ (((consume l f now).0 ≢ ok) × ((consume l f now).1 ≡ l))
unfolding consume
consume_cases l f now = ground arith

-- A room is closed until an instant if a feed there is refused at every earlier one.
abbrev pub IsClosedUntil : Limiter → String → Time → Type 0
IsClosedUntil l room deadline = lookup room l.room_next ≡ some deadline

pub consume_closed :
    (l : Limiter) (f : Feed) (now deadline : Time)
    → IsClosedUntil l f.room_id deadline
    → now < deadline
    → consume l f now ≡ (blocked_room, l)
unfolding consume pending
consume_closed l f now deadline h lt = ground arith

-- The calls of a history, each at its instant.
unfoldable pub run : Limiter → List (Time × Feed) → Limiter
run l [] = l
run l ((now, f) ∷ calls) = run (consume l f now).1 calls

abbrev pub AllBefore : Time → List (Time × Feed) → Type 0
AllBefore deadline [] = Unit
AllBefore deadline ((now, f) ∷ calls) = (now < deadline) × AllBefore deadline calls

consume-IsClosedUntil :
    (l : Limiter) (f : Feed) (room : String) (now deadline : Time)
    → IsClosedUntil l room deadline
    → now < deadline
    → IsClosedUntil (consume l f now).1 room deadline
unfolding consume pending
consume-IsClosedUntil l f room now deadline h lt = ground (
  arith,
  eq_iff f.room_id room,
  lookup-insert f.room_id room (add_time now l.room_cooldown) l.room_next,
)

run-IsClosedUntil :
    (l : Limiter) (calls : List (Time × Feed)) (room : String) (deadline : Time)
    → IsClosedUntil l room deadline
    → AllBefore deadline calls
    → IsClosedUntil (run l calls) room deadline
unfolding run
run-IsClosedUntil l [] room deadline h b = h
run-IsClosedUntil l ((now, f) ∷ calls) room deadline h b =
    run-IsClosedUntil (consume l f now).1 calls room deadline
      (consume-IsClosedUntil l f room now deadline h b.0) b.1

closes :
    (l : Limiter) (f : Feed) (now : Time)
    → (consume l f now).0 ≡ ok
    → IsClosedUntil (consume l f now).1 f.room_id (add_time now l.room_cooldown)
unfolding consume
closes l f now h =
    ground (arith, lookup-insert_self f.room_id (add_time now l.room_cooldown) l.room_next)

-- Once a feed went through in a room, every feed there is refused until the room's cooldown is
-- over, whoever asks, for whatever cat and amount, and whatever else is fed in between.
pub room_spacing :
    (l : Limiter) (f g : Feed) (now later : Time) (calls : List (Time × Feed))
    → (consume l f now).0 ≡ ok
    → g.room_id ≡ f.room_id
    → AllBefore (add_time now l.room_cooldown) calls
    → later < add_time now l.room_cooldown
    → let l' = run (consume l f now).1 calls in consume l' g later ≡ (blocked_room, l')
room_spacing l f g now later calls h same b lt =
    consume_closed _ g later (add_time now l.room_cooldown)
      (rw same (
        run-IsClosedUntil (consume l f now).1 calls f.room_id (add_time now l.room_cooldown)
          (closes l f now h) b))
      lt
