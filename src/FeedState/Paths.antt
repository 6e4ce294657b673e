-- ===== src/FeedState/Paths.antt =====
-- Chains of transitions of the feed state machine: what they can reach, and how long they are.
use yunmao.Base.{ℕ, zero, suc, ◌+◌, ◌≤◌, ◌<◌, ◌≡◌, refl, ◌≢◌, ◌↔◌, true, false, arith}
use yunmao.FeedState.{
  State, created, rejected, accepted, queued, dispatched, acknowledged, succeeded, failed,
  compensated, unknown, ok, transition, is_terminal,
}

-- The arrows that the package's comment draws, with the two ways to cancel.
pub data Edge : State → State → Type 0 where
  reject_new : Edge created rejected
  accept : Edge created accepted
  enqueue : Edge accepted queued
  reject_accepted : Edge accepted rejected
  dispatch : Edge queued dispatched
  fail_queued : Edge queued failed
  cancel_queued : Edge queued rejected
  ack : Edge dispatched acknowledged
  fail_dispatched : Edge dispatched failed
  cancel_dispatched : Edge dispatched rejected
  succeed : Edge acknowledged succeeded
  fail_acknowledged : Edge acknowledged failed
  compensate : Edge failed compensated

Edge-transition : {a b : State} → Edge a b → transition a b ≡ ok b
unfolding transition
Edge-transition reject_new = refl
Edge-transition accept = refl
Edge-transition enqueue = refl
Edge-transition reject_accepted = refl
Edge-transition dispatch = refl
Edge-transition fail_queued = refl
Edge-transition cancel_queued = refl
Edge-transition ack = refl
Edge-transition fail_dispatched = refl
Edge-transition cancel_dispatched = refl
Edge-transition succeed = refl
Edge-transition fail_acknowledged = refl
Edge-transition compensate = refl

transition-Edge : (a b : State) → transition a b ≡ ok b → Edge a b
unfolding transition
transition-Edge created rejected e = reject_new
transition-Edge created accepted e = accept
transition-Edge accepted queued e = enqueue
transition-Edge accepted rejected e = reject_accepted
transition-Edge queued dispatched e = dispatch
transition-Edge queued failed e = fail_queued
transition-Edge queued rejected e = cancel_queued
transition-Edge dispatched acknowledged e = ack
transition-Edge dispatched failed e = fail_dispatched
transition-Edge dispatched rejected e = cancel_dispatched
transition-Edge acknowledged succeeded e = succeed
transition-Edge acknowledged failed e = fail_acknowledged
transition-Edge failed compensated e = compensate
transition-Edge _ _ e = cc

-- `Transition` accepts a move exactly when the move is one of the arrows of the state diagram.
pub transition_iff : (a b : State) → (transition a b ≡ ok b) ↔ Edge a b
transition_iff a b = (transition-Edge a b, Edge-transition)

-- The height of a state above the ends of the machine.
abbrev pub rank : State → ℕ
rank created = 6
rank accepted = 5
rank queued = 4
rank dispatched = 3
rank acknowledged = 2
rank failed = 1
rank _ = 0

pub rank-lt : (a b : State) {c : State} → transition a b ≡ ok c → rank c < rank a
unfolding transition
rank-lt a b e = ground arith

-- A chain of n accepted transitions.
pub data Chain : State → State → ℕ → Type 0 where
  stop : {a : State} → Chain a a zero
  step : {a b c : State} {n : ℕ} → transition a b ≡ ok b → Chain b c n → Chain a c (suc n)

pub Chain-rank : {a b : State} {n : ℕ} → Chain a b n → n + rank b ≤ rank a
Chain-rank stop = omega arith
Chain-rank (step {a} {b} e ch) = omega (arith, rank-lt a b e, Chain-rank ch)

rank_le : (s : State) → rank s ≤ 6
rank_le s = ground arith

-- Whatever the calls are, a request changes its state at most six times.
pub Chain-length : {a b : State} {n : ℕ} → Chain a b n → n ≤ 6
Chain-length {a} ch = omega (arith, Chain-rank ch, rank_le a)

pub transition_target : (a b : State) {c : State} → transition a b ≡ ok c → c ≡ b
unfolding transition
transition_target a b e = ground arith

-- A terminal state admits no transition, and every other state of the machine admits one:
-- `IsTerminal` is true exactly at the ends of the machine.
pub is_terminal_exact :
    (a : State)
    → a ≢ unknown
    → ((is_terminal a ≡ true) → (b c : State) → transition a b ≢ ok c)
      × ((is_terminal a ≡ false) → (b : State) × (transition a b ≡ ok b))
unfolding transition is_terminal
is_terminal_exact created h = (λ e. cc, λ e. (accepted, refl))
is_terminal_exact accepted h = (λ e. cc, λ e. (queued, refl))
is_terminal_exact queued h = (λ e. cc, λ e. (dispatched, refl))
is_terminal_exact dispatched h = (λ e. cc, λ e. (acknowledged, refl))
is_terminal_exact acknowledged h = (λ e. cc, λ e. (succeeded, refl))
is_terminal_exact failed h = (λ e. cc, λ e. (compensated, refl))
is_terminal_exact succeeded h = (λ e b c. ground arith, λ e. cc)
is_terminal_exact rejected h = (λ e b c. ground arith, λ e. cc)
is_terminal_exact compensated h = (λ e b c. ground arith, λ e. cc)
is_terminal_exact unknown h = absurd (h refl)

abbrev pub IsEnd : State → Type 0
IsEnd succeeded = Unit
IsEnd rejected = Unit
IsEnd _ = ⊥

-- Once a request has succeeded or was rejected it never changes again.
pub Chain-settled : {a b : State} {n : ℕ} → IsEnd a → Chain a b n → a ≡ b
unfolding transition
Chain-settled h stop = refl
Chain-settled {a = succeeded} h (step {b} e ch) = ground arith
Chain-settled {a = rejected} h (step {b} e ch) = ground arith
Chain-settled {a = created} h ch = absurd h
Chain-settled {a = accepted} h ch = absurd h
Chain-settled {a = queued} h ch = absurd h
Chain-settled {a = dispatched} h ch = absurd h
Chain-settled {a = acknowledged} h ch = absurd h
Chain-settled {a = failed} h ch = absurd h
Chain-settled {a = compensated} h ch = absurd h
Chain-settled {a = unknown} h ch = absurd h
