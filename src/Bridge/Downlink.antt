-- ===== src/Bridge/Downlink.antt =====
-- What a device is sent over the history of its requests: the outbox messages of the feeding service
-- for each change of state (go/services/feeding-svc/internal/service/outbox_listener.go), through the
-- topics that the bridge subscribes to.
use yunmao.Base.{
  ℕ, String, ◌≡◌, ◌≢◌, Bool, false, ◌||◌, Option, none, some, if◌then◌else◌, returns, List, [], ◌∷◌,
  ◌++◌, ◌==◌,
}
use yunmao.EventBus.{Topic, new_envelope}
use yunmao.FeedState.{State, rejected, accepted, queued, dispatched}
use yunmao.FeedingService.{Request, StateChangeEvent}
use yunmao.FeedStore.{OutboxEvent, Payload, command_of, build_outbox_events}
use yunmao.Mqttx.{device_command_topic}
use yunmao.Bridge.{FeedCommandPayload, Ports, default_config, command_topics, handle_kafka_cmd}

-- The fields that a payload of the outbox and a command share.
abbrev pub of_payload : Payload → FeedCommandPayload
of_payload p = record {
  feed_request_id = p.feed_request_id;
  device_command_id = p.device_command_id;
  device_id = p.device_id;
  room_id = p.room_id;
  amount_grams = p.amount_grams;
  motor_duration_ms = p.motor_duration_ms;
  expires_at = p.expires_at;
  reason = p.reason;
}

-- A command without a motor time and an expiry.
abbrev pub bare : Request → ℕ → String → FeedCommandPayload
bare r grams reason = record {
  feed_request_id = r.id;
  device_command_id = r.device_command_id;
  device_id = r.device_id;
  room_id = r.room_id;
  amount_grams = grams;
  motor_duration_ms = 0;
  expires_at = "";
  reason = reason;
}

abbrev Sent : Type 0
Sent = List (String × String)

-- The commands that a change of state sends, as pairs of a topic and a payload.
abbrev pub commands : (FeedCommandPayload → String) → State → State → Request → String → Sent
commands write accepted queued r reason =
    (device_command_topic r.device_id "feed", write (of_payload (command_of r))) ∷ []
commands write queued dispatched r reason =
    (device_command_topic r.device_id "feed", write (bare r r.amount_grams "")) ∷ []
commands write queued rejected r reason =
    (device_command_topic r.device_id "cancel", write (bare r 0 reason)) ∷ []
commands write dispatched rejected r reason =
    (device_command_topic r.device_id "cancel", write (bare r 0 reason)) ∷ []
commands write _ _ r reason = []

abbrev pub listed : List Topic → Topic → Bool
listed [] t = false
listed (d ∷ ds) t = d == t || listed ds t

-- The commands, and the messages of the outbox, of a history of changes.
abbrev pub all_commands : (FeedCommandPayload → String) → List StateChangeEvent → Sent
all_commands write [] = []
all_commands write (c ∷ cs) =
    commands write c.from c.to c.snapshot c.reason ++ all_commands write cs

abbrev pub messages : String → List StateChangeEvent → List OutboxEvent
messages source [] = []
messages source (c ∷ cs) = build_outbox_events source c ++ messages source cs

-- The request of each change has a device.
abbrev pub Fed : List StateChangeEvent → Type 0
Fed [] = Unit {0}
Fed (c ∷ cs) = (c.snapshot.device_id ≢ "") × Fed cs

abbrev changed : String → State → State → Request → String → StateChangeEvent
changed id from to r reason = record {
  feed_request_id = id;
  from = from;
  to = to;
  reason = reason;
  snapshot = r;
}

-- The ports of a bridge whose MQTT messages are written down.
abbrev pub recorder :
    {P : Type 0} → (P → Option FeedCommandPayload) → (FeedCommandPayload → String) → Ports P Sent
recorder read write = record {
  read_command = read;
  write_command = write;
  read_ack = λ p. none;
  event = λ t source subject c. none;
  publish_bus = λ env w. (returns tt, w);
  publish_mqtt = λ topic payload w. (returns tt, w ++ (topic, payload) ∷ []);
  on_ack = none;
  on_heartbeat = none;
}

module _ {P : Type 0} (read : P → Option FeedCommandPayload) (write : FeedCommandPayload → String)
    (encode : OutboxEvent → P) where
  unfoldable pub consume : OutboxEvent → Sent → Sent
  consume e w =
      if listed (command_topics default_config) e.topic
      then (handle_kafka_cmd (recorder read write) (new_envelope e.topic e.partition_key (encode e))
          w).1
      else w

  -- The bridge reads the messages of the topics that it subscribes to.
  abbrev pub consumed : List OutboxEvent → Sent → Sent
  consumed [] w = w
  consumed (e ∷ es) w = consumed es (consume e w)

  module _ (reads : (e : OutboxEvent) → read (encode e) ≡ some (of_payload e.payload)) where
    -- Messages of other topics send nothing.
    abbrev Unheard : List OutboxEvent → Type 0
    Unheard [] = Unit {0}
    Unheard (e ∷ es) = (listed (command_topics default_config) e.topic ≡ false) × Unheard es
