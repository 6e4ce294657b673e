-- ===== src/Mqttx.antt =====
-- The in-process MQTT broker and its clients, go/pkg/yunmao/mqttx/mqttx.go: topics and their
-- filters, subscriptions and deliveries. `H` is the type of the handlers; a call of a handler is an
-- entry in the list of deliveries, in the order of the calls.
pub mod Topics
pub mod Filters
pub mod Delivery
mod Tests
use Prim.Native.Char.{Char, code}
use yunmao.Base.{
  ℕ, String, append, Bool, true, false, ◌||◌, Option, none, some, nat_eq, if◌then◌else◌, Fallible,
  returns, fails, List, [], ◌∷◌, ◌++◌, map, ◌==◌, Dict, lookup, insert, erase,
}

abbrev pub push : String → Char → String
push s c = append s (String.◌∷◌ c "")

-- The loop over the text, with the segment that is not yet closed.
unfoldable pub split_from : String → String → List String
split_from cur String.[] = cur ∷ []
split_from cur (String.◌∷◌ c s) =
    let closed = cur ∷ split_from "" s in
    let longer = split_from (push cur c) s in if nat_eq (code c) b'/' then closed else longer

unfoldable pub split_topic : String → List String
unfolding split_from
split_topic t = if t == "" then [] else split_from "" t

-- The loop goes through both lists with one index; what is left of them is tested after it.
unfoldable pub match_filter : List String → List String → Bool
match_filter [] [] = true
match_filter [] (_ ∷ _) = false
match_filter (f ∷ _) [] = f == "#"
match_filter (f ∷ fs) (p ∷ ps) =
    let rest = match_filter fs ps in
    if f == "#" then true else if f == "+" then rest else if f == p then rest else false

pub data QoS : Type 0 where
  qos0 qos1 qos2 : QoS

-- The payload is the text of its bytes.
pub record Message : Type 0 where
  pub topic : String
  pub payload : String
  pub qos : QoS
  pub retain : Bool

unfoldable pub device_event_topic : String → String → String
device_event_topic device event_type =
    append "device/" (append device (append "/event/" event_type))

unfoldable pub device_command_topic : String → String → String
device_command_topic device cmd_type = append "device/" (append device (append "/cmd/" cmd_type))

pub record Subscription (H : Type 0) : Type 0 where
  pub client_id : String
  pub filter : List String
  pub h : H

-- `subs` of MemoryBroker: a client's subscriptions under its name.
abbrev pub MemoryBroker : Type 0 → Type 0
MemoryBroker H = Dict (List (Subscription H))

pub record MemoryClient : Type 0 where
  pub client_id : String
  pub connected : Bool

unfoldable pub new_client : String → MemoryClient
new_client id = record { client_id = id; connected = false }

-- `Connect`; it returns no error.
unfoldable pub connect : MemoryClient → MemoryClient
connect c = record c { connected = true }

module _ {H : Type 0} where
  -- The handlers of a list of subscriptions that a topic reaches.
  unfoldable pub matching : List String → List (Subscription H) → List H
  unfolding match_filter
  matching parts [] = []
  matching parts (s ∷ subs) =
      let rest = matching parts subs in if match_filter s.filter parts then s.h ∷ rest else rest

  unfoldable pub matches_of : List String → MemoryBroker H → List H
  unfolding matching
  matches_of parts [] = []
  matches_of parts ((_, subs) ∷ b) = matching parts subs ++ matches_of parts b

  -- The calls of the handlers, one after another.
  unfoldable pub deliver : String → String → List H → List (H × Message)
  deliver topic payload hs =
      map (λ h. (h, record { topic = topic; payload = payload; qos = qos1; retain = false })) hs

  unfoldable pub broker_publish : String → String → MemoryBroker H → List (H × Message)
  unfolding split_topic matches_of deliver
  broker_publish topic payload b = deliver topic payload (matches_of (split_topic topic) b)

  unfoldable pub subs_of : String → MemoryBroker H → List (Subscription H)
  subs_of id b = elim (lookup id b) [ none ↦ [] | some subs ↦ subs ]

  unfoldable pub broker_subscribe : String → String → H → MemoryBroker H → MemoryBroker H
  unfolding subs_of split_topic
  broker_subscribe id filter h b =
      let s : Subscription H = record { client_id = id; filter = split_topic filter; h = h } in
      insert id (subs_of id b ++ s ∷ []) b

  unfoldable pub disconnect : MemoryClient → MemoryBroker H → MemoryClient × MemoryBroker H
  disconnect c b = (record c { connected = false }, erase c.client_id b)

  unfoldable pub subscribe :
      MemoryClient → String → H → MemoryBroker H → Fallible String (MemoryBroker H)
  unfolding broker_subscribe
  subscribe c filter h b =
      if c.connected
      then returns (broker_subscribe c.client_id filter h b)
      else fails "mqttx: not connected"

  unfoldable pub publish :
      MemoryClient → String → String → MemoryBroker H → Fallible String (List (H × Message))
  unfolding broker_publish
  publish c topic payload b =
      if c.connected then returns (broker_publish topic payload b) else fails "mqttx: not connected"
