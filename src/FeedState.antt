-- ===== src/FeedState.antt =====
-- The feed request's state machine, go/pkg/yunmao/feedstate/feedstate.go.
pub mod Paths
mod Tests
use mathlib.Core.Bool.{Bool, true, false, ◌||◌}
use mathlib.Core.List.{List, [], ◌∷◌}
use mathlib.Core.Option.{Option, none, some}
use yunmao.Base.{ℕ, nat_eq, if◌then◌else◌}

-- Go's State is a text: `unknown` stands for every text that is none of the nine constants.
pub data State : Type 0 where
  created rejected accepted queued dispatched acknowledged succeeded failed compensated : State
  unknown : State

pub data TransitionError : Type 0 where
  unknown_from : State → TransitionError
  not_allowed : State → State → TransitionError

pub data Outcome : Type 0 where
  ok : State → Outcome
  err : TransitionError → Outcome

-- The place of a state in Go's list of constants.
abbrev pub index : State → ℕ
index created = 0
index rejected = 1
index accepted = 2
index queued = 3
index dispatched = 4
index acknowledged = 5
index succeeded = 6
index failed = 7
index compensated = 8
index unknown = 9

-- `a == b` on states
abbrev pub state_eq : State → State → Bool
state_eq a b = nat_eq (index a) (index b)

-- The rows of `allowedTransitions`; `none` is a missing key.
unfoldable pub allowed_transitions : State → Option (List State)
allowed_transitions created = some (rejected ∷ accepted ∷ [])
allowed_transitions accepted = some (queued ∷ rejected ∷ [])
allowed_transitions queued = some (dispatched ∷ failed ∷ rejected ∷ [])
allowed_transitions dispatched = some (acknowledged ∷ failed ∷ rejected ∷ [])
allowed_transitions acknowledged = some (succeeded ∷ failed ∷ [])
allowed_transitions succeeded = some []
allowed_transitions failed = some (compensated ∷ [])
allowed_transitions rejected = some []
allowed_transitions compensated = some []
allowed_transitions unknown = none

-- `dests[to]` of a map into bool
abbrev listed : List State → State → Bool
listed [] s = false
listed (d ∷ ds) s = state_eq d s || listed ds s

unfoldable pub transition : State → State → Outcome
unfolding allowed_transitions
transition from to = elim (allowed_transitions from) [
  | none ↦ err (unknown_from from)
  | some dests ↦ if listed dests to then ok to else err (not_allowed from to)
]

unfoldable pub is_terminal : State → Bool
is_terminal rejected = true
is_terminal succeeded = true
is_terminal compensated = true
is_terminal _ = false
