-- ===== src/EventBus.antt =====
-- The in-process event bus, MemoryBus of go/pkg/yunmao/eventbus/eventbus.go. A channel is a number
-- with its queue; `receive` is a turn of the goroutine that Subscribe starts. `P` is the type of
-- the payloads.
pub mod Delivery
mod Tests
use yunmao.Base.{
  ℕ, suc, String, append, Bool, true, false, Option, none, some, ltb, nat_eq, length, if◌then◌else◌,
  Fallible, returns, fails, Action, List, [], ◌∷◌, ◌++◌, Dict, lookup, insert,
}

-- A topic is its text.
abbrev pub Topic : Type 0
Topic = String

abbrev pub feed_command_requested : Topic
feed_command_requested = "feed.command.requested"

abbrev pub feed_command_dispatched : Topic
feed_command_dispatched = "feed.command.dispatched"

abbrev pub feed_command_acked : Topic
feed_command_acked = "feed.command.acked"

abbrev pub feed_command_completed : Topic
feed_command_completed = "feed.command.completed"

abbrev pub feed_command_failed : Topic
feed_command_failed = "feed.command.failed"

abbrev pub feed_command_cancelled : Topic
feed_command_cancelled = "feed.command.cancelled"

abbrev pub feed_command_cancelled_acked : Topic
feed_command_cancelled_acked = "feed.command.cancelled_acked"

abbrev pub device_state_changed : Topic
device_state_changed = "device.state.changed"

unfoldable pub dlq : Topic → Topic
dlq t = append t ".dlq"

pub record Envelope (P : Type 0) : Type 0 where
  pub topic : Topic
  pub key : String
  pub headers : Dict String
  pub payload : P

module _ {P : Type 0} where
  -- NewEnvelope; the event's JSON is its payload.
  unfoldable pub new_envelope : Topic → String → P → Envelope P
  new_envelope topic key event = record {
    topic = topic;
    key = key;
    headers = ("content-type", "application/cloudevents+json") ∷ ("ce-type", topic) ∷ [];
    payload = event;
  }

-- The channels under their numbers; `next` is the number of the next one that is made.
pub record MemoryBus (P : Type 0) : Type 0 where
  pub subs : Dict (List ℕ)
  pub queues : ℕ → List (Envelope P)
  pub next : ℕ
  pub closed : Bool

unfoldable pub channels_of : Topic → Dict (List ℕ) → List ℕ
channels_of t subs = elim (lookup t subs) [ none ↦ [] | some cs ↦ cs ]

unfoldable pub add_sub : ℕ → List Topic → Dict (List ℕ) → Dict (List ℕ)
unfolding channels_of
add_sub c [] subs = subs
add_sub c (t ∷ ts) subs = add_sub c ts (insert t (channels_of t subs ++ c ∷ []) subs)

-- `append(s[:i], s[i+1:]...)` at the first place of the channel.
unfoldable pub remove_first : ℕ → List ℕ → List ℕ
remove_first c [] = []
remove_first c (d ∷ ds) = let rest = remove_first c ds in if nat_eq d c then ds else d ∷ rest

unfoldable pub drop_sub : ℕ → List Topic → Dict (List ℕ) → Dict (List ℕ)
unfolding remove_first channels_of
drop_sub c [] subs = subs
drop_sub c (t ∷ ts) subs = drop_sub c ts (insert t (remove_first c (channels_of t subs)) subs)

abbrev pub capacity : ℕ
capacity = 256

module _ {P : Type 0} where
  unfoldable pub new_memory_bus : MemoryBus P
  new_memory_bus = record { subs = []; queues = λ c. []; next = 0; closed = false }

  abbrev pub set_queue : ℕ → List (Envelope P) → MemoryBus P → MemoryBus P
  set_queue c q b = record b { queues = λ d. if nat_eq d c then q else b.queues d }

  -- `select { case c <- env: default: }`
  unfoldable pub send : Envelope P → ℕ → MemoryBus P → MemoryBus P
  send env c b =
      if ltb (length (b.queues c)) capacity then set_queue c (b.queues c ++ env ∷ []) b else b

  unfoldable pub send_all : Envelope P → List ℕ → MemoryBus P → MemoryBus P
  unfolding send
  send_all env [] b = b
  send_all env (c ∷ cs) b = send_all env cs (send env c b)

  unfoldable pub publish : Envelope P → Action (MemoryBus P) String (Unit {0})
  unfolding send_all channels_of
  publish env b =
      if b.closed
      then (fails "eventbus: closed", b)
      else (returns tt, send_all env (channels_of env.topic b.subs) b)

  -- The result is the new channel, which the goroutine reads.
  unfoldable pub subscribe : List Topic → Action (MemoryBus P) String ℕ
  unfolding add_sub
  subscribe topics b =
      if b.closed
      then (fails "eventbus: closed", b)
      else (returns b.next, record b { subs = add_sub b.next topics b.subs; next = suc b.next })

  unfoldable pub unsub : List Topic → ℕ → MemoryBus P → MemoryBus P
  unfolding drop_sub
  unsub topics c b = record b { subs = drop_sub c topics b.subs }

  -- The goroutine takes the oldest envelope of its channel, if there is one.
  unfoldable pub receive : ℕ → MemoryBus P → Option (Envelope P) × MemoryBus P
  receive c b = elim (b.queues c) [ [] ↦ (none, b) | env ∷ q ↦ (some env, set_queue c q b) ]

  unfoldable pub close : MemoryBus P → MemoryBus P
  close b = record b { closed = true }
