-- ===== src/Bridge/Tests.antt =====
-- Tests of the bridge, and its theorems at concrete inputs.
use yunmao.Base.{ℕ, ◌≡◌, refl, arith, none, some, List, [], ◌∷◌, true}
use yunmao.EventBus.{new_memory_bus}
use yunmao.FeedState.{State, accepted, queued, dispatched}
use yunmao.FeedingService.{Request, StateChangeEvent}
use yunmao.FeedStore.{OutboxEvent, command_of}
use yunmao.Mqttx.{device_command_topic}
use yunmao.DeviceStore.{new_memory_store}
use yunmao.Bridge.{FeedAckPayload, default_config, handle_mqtt_event}
use yunmao.Bridge.Server.{World, Json, server_ports}
use yunmao.Bridge.Uplink.{from_device, devices_after, handle_mqtt_event-devices}
use yunmao.Bridge.Downlink.{of_payload, all_commands}

abbrev ack : FeedAckPayload
ack = record {
  feed_request_id = "feed_1";
  device_command_id = "cmd_1";
  device_id = "someone_else";
  room_id = "room_demo";
  status = "succeeded";
  actual_amount_grams = 5;
  remaining_food_grams = 995;
  executed_at = "";
  errors = [];
}

abbrev json : Json OutboxEvent
json = record {
  read_command = λ e. some (of_payload e.payload);
  write_command = λ c. c.feed_request_id;
  read_ack = λ s. some ack;
  event = λ t source subject c. none;
}

abbrev world : World OutboxEvent ℕ
world = record {
  bus = new_memory_bus;
  broker = [];
  client = record { client_id = "bridge"; connected = true };
  inbox = [];
  devices = new_memory_store 7;
}

-- The device in the topic counts, not the one in the payload.
handle_mqtt_event-devices_example :
    (handle_mqtt_event
      (server_ports json)
      default_config
      (from_device "dev_demo" "feed_ack" "{}")
      9
      world).1.devices
    ≡ devices_after json default_config "dev_demo" "feed_ack" "{}" 9 world
handle_mqtt_event-devices_example =
    handle_mqtt_event-devices json default_config "dev_demo" "feed_ack" "{}" 9 world (omega arith)
      (omega arith)

abbrev request : State → Request
request st = record {
  id = "feed_1";
  user_id = "u";
  room_id = "room_demo";
  cat_id = "cat_demo";
  device_id = "dev_demo";
  device_command_id = "cmd_1";
  amount_grams = 5;
  status = st;
  idempotency_key = "k";
  reject_reason = "";
  created_at = 7;
  updated_at = 8;
}

abbrev change : State → State → StateChangeEvent
change from to = record {
  feed_request_id = "feed_1";
  from = from;
  to = to;
  reason = "";
  snapshot = request to;
}

abbrev changes : List StateChangeEvent
changes = change accepted queued ∷ change queued dispatched ∷ []

-- One feeding sends the device two feed commands.
fed_twice :
    all_commands json.write_command changes
    ≡ ("device/dev_demo/cmd/feed", "feed_1") ∷ ("device/dev_demo/cmd/feed", "feed_1") ∷ []
unfolding device_command_topic command_of
fed_twice = refl
