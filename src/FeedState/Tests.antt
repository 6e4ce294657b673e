-- ===== src/FeedState/Tests.antt =====
-- Tests of the state machine, and its theorems at concrete inputs.
use yunmao.Base.{◌≡◌, refl, ◌≤◌}
use yunmao.FeedState.{created, accepted, queued, rejected, ok, err, not_allowed, transition}
use yunmao.FeedState.Paths.{stop, step, Chain-length}

cancel_queued_ok : transition queued rejected ≡ ok rejected
unfolding transition
cancel_queued_ok = refl

skip_queue : transition created queued ≡ err (not_allowed created queued)
unfolding transition
skip_queue = refl

Chain-length_example : ◌≤◌ 3 6
unfolding transition
Chain-length_example =
    Chain-length {a = created} {b = rejected}
      (step {b = accepted} refl (step {b = queued} refl (step refl stop)))
