-- ===== src/Bridge.antt =====
-- The bridge between the event bus and MQTT, go/services/device-svc/internal/bridge/bridge.go, with
-- the callbacks that go/services/device-svc/server/server.go sets. `P` is the type of the payloads of
-- the bus and `W` the state of all that the bridge calls: the bus, the MQTT client and the devices.
pub mod Server
pub mod Downlink
pub mod Uplink
mod Tests
use yunmao.Base.{
  ℕ, String, append, Bool, true, false, not, ◌&&◌, ◌||◌, Option, none, some, if◌then◌else◌,
  Fallible, returns, fails, Action, pure, fail, ◌>>=◌, ◌>>◌, List, [], ◌∷◌, ◌==◌, Time,
}
use yunmao.EventBus.{
  Topic, Envelope, new_envelope, feed_command_requested, feed_command_dispatched,
  feed_command_cancelled, feed_command_acked, feed_command_completed, feed_command_cancelled_acked,
  device_state_changed,
}
use yunmao.Mqttx.{Message, split_from, device_command_topic}

pub record FeedCommandPayload : Type 0 where
  pub feed_request_id : String
  pub device_command_id : String
  pub device_id : String
  pub room_id : String
  pub amount_grams : ℕ  -- uint32
  pub motor_duration_ms : ℕ  -- uint32
  pub expires_at : String
  pub reason : String

pub record FeedAckPayload : Type 0 where
  pub feed_request_id : String
  pub device_command_id : String
  pub device_id : String
  pub room_id : String
  pub status : String
  pub actual_amount_grams : ℕ  -- uint32
  pub remaining_food_grams : ℕ  -- uint32
  pub executed_at : String
  pub errors : List String

-- The data of an event that the bridge publishes.
pub data EventData : Type 0 where
  acked : FeedAckPayload → EventData
  state : String → String → String → EventData

pub record Config : Type 0 where
  pub source : String
  pub command_subscribe_topic : Topic
  pub device_event_filter : String

unfoldable pub default_config : Config
default_config = record {
  source = "device-svc@bridge";
  command_subscribe_topic = feed_command_dispatched;
  device_event_filter = "device/+/event/+";
}

-- The defaults of `New`.
unfoldable pub new_config : Config → Config
new_config c = record {
  source = if c.source == "" then "device-svc@bridge" else c.source;
  command_subscribe_topic =
      if c.command_subscribe_topic == ""
      then feed_command_dispatched
      else c.command_subscribe_topic;
  device_event_filter =
      if c.device_event_filter == "" then "device/+/event/+" else c.device_event_filter;
}

-- What the bridge calls. The JSON library reads and writes the payloads: `read_command` the data of
-- an event, `none` if it is no JSON of a command; `event` is the JSON of the event with a type, a
-- source, a subject and its data, `none` if the data holds what is no JSON. `on_ack` and `on_heartbeat` are the callbacks, if they are set.
pub record Ports (P W : Type 0) : Type 0 where
  pub read_command : P → Option FeedCommandPayload
  pub write_command : FeedCommandPayload → String
  pub read_ack : String → Option FeedAckPayload
  pub event : Topic → String → String → EventData → Option P
  pub publish_bus : Envelope P → Action W String (Unit {0})
  pub publish_mqtt : String → String → Action W String (Unit {0})
  pub on_ack : Option (FeedAckPayload → Time → W → W)
  pub on_heartbeat : Option (String → Time → W → W)

-- The topics that Start subscribes to on the bus.
unfoldable pub command_topics : Config → List Topic
command_topics c = c.command_subscribe_topic ∷ feed_command_requested ∷ feed_command_cancelled ∷ []

unfoldable pub command_of_topic : Topic → String
command_of_topic t = if t == feed_command_cancelled then "cancel" else "feed"

unfoldable pub is_ack : String → Bool
is_ack event_type = event_type == "feed_ack" || event_type == "feed_done"

unfoldable pub is_cancel : String → Bool
is_cancel event_type = event_type == "cancelled" || event_type == "cancel_ack"

unfoldable pub is_beat : String → Bool
is_beat event_type =
    event_type == "heartbeat" || event_type == "online" || event_type == "telemetry"

unfoldable pub is_state : String → Bool
unfolding is_beat
is_state event_type = is_beat event_type || event_type == "offline" || event_type == "error"

unfoldable pub ack_topic : String → FeedAckPayload → Topic
ack_topic event_type ack =
    if event_type == "feed_done" || ack.status == "succeeded"
    then feed_command_completed
    else feed_command_acked

module _ {P W : Type 0} (d : Ports P W) where
  unfoldable pub forward : Topic → FeedCommandPayload → Action W String (Unit {0})
  unfolding device_command_topic command_of_topic
  forward topic c w =
      if c.device_id == ""
      then (returns tt, w)
      else d.publish_mqtt (device_command_topic c.device_id (command_of_topic topic))
          (d.write_command c) w

  unfoldable pub handle_kafka_cmd : Envelope P → Action W String (Unit {0})
  unfolding forward
  handle_kafka_cmd env w = elim (d.read_command env.payload) [
    | none ↦ (fails "json", w)
    | some c ↦ forward env.topic c w
  ]

  unfoldable pub publish_ce :
      Config → Topic → String → String → EventData → Action W String (Unit {0})
  unfolding new_envelope
  publish_ce cfg topic key subject content w = elim (d.event topic cfg.source subject content) [
    | none ↦ (fails "marshal cloudevent", w)
    | some event ↦ d.publish_bus (new_envelope topic key event) w
  ]

  unfoldable pub call_ack : FeedAckPayload → Time → W → W
  call_ack ack now w = elim d.on_ack [ none ↦ w | some f ↦ f ack now w ]

  unfoldable pub call_heartbeat : String → Time → W → W
  call_heartbeat device now w = elim d.on_heartbeat [ none ↦ w | some f ↦ f device now w ]

  -- An acknowledgement whose device is the one in the topic.
  unfoldable pub on_feed_ack :
      Config → String → String → FeedAckPayload → Time → Action W String (Unit {0})
  unfolding call_ack ack_topic publish_ce
  on_feed_ack cfg device event_type read now w =
      let ack = record read { device_id = device } in
      publish_ce cfg (ack_topic event_type ack) ack.room_id ack.feed_request_id (acked ack)
        (call_ack ack now w)

  unfoldable pub on_cancel_ack : Config → String → FeedAckPayload → Action W String (Unit {0})
  unfolding publish_ce
  on_cancel_ack cfg device read w =
      let ack = record read { device_id = device } in
      publish_ce cfg feed_command_cancelled_acked ack.room_id ack.feed_request_id (acked ack) w

  unfoldable pub on_state : Config → String → String → String → Time → Action W String (Unit {0})
  unfolding call_heartbeat is_beat publish_ce
  on_state cfg device event_type payload now w =
      publish_ce cfg device_state_changed device device (state device event_type payload)
        (if is_beat event_type then call_heartbeat device now w else w)

  -- The switch over the type of the event.
  unfoldable pub dispatch : Config → String → String → String → Time → Action W String (Unit {0})
  unfolding on_feed_ack on_cancel_ack on_state is_ack is_cancel is_state
  dispatch cfg device event_type payload now w =
      if is_ack event_type
      then elim (d.read_ack payload) [
        | none ↦ (fails "json", w)
        | some ack ↦ on_feed_ack cfg device event_type ack now w
      ]
      else if is_cancel event_type
      then elim (d.read_ack payload) [
        | none ↦ (fails "json", w)
        | some ack ↦ on_cancel_ack cfg device ack w
      ]
      else if is_state event_type
      then on_state cfg device event_type payload now w
      else (returns tt, w)

  -- The test of the segments of the topic; what stands behind the fourth is not looked at.
  unfoldable pub dispatch_parts : Config → List String → String → Time → Action W String (Unit {0})
  unfolding dispatch
  dispatch_parts cfg (root ∷ device ∷ kind ∷ event_type ∷ _) payload now w =
      if root == "device" && kind == "event"
      then dispatch cfg device event_type payload now w
      else (returns tt, w)
  dispatch_parts cfg _ payload now w = (returns tt, w)

  -- `strings.Split(m.Topic, "/")` also splits the empty text, into one empty segment.
  unfoldable pub handle_mqtt_event : Config → Message → Time → Action W String (Unit {0})
  unfolding dispatch_parts split_from
  handle_mqtt_event cfg m now = dispatch_parts cfg (split_from "" m.topic) m.payload now
