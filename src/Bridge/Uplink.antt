-- ===== src/Bridge/Uplink.antt =====
-- What a message of a device does to the devices and to the bus.
use yunmao.Base.{
  String, ◌≡◌, refl, ◌∙◌, arith, true, false, none, some, if◌then◌else◌, ◌==◌, Time, Bool-cases,
  Option-cases, eq_of_==, inl, inr, ℕ, nat_eq, lookup, insert, ◌||◌,
}
use yunmao.DeviceStore
use yunmao.EventBus.{Topic, device_state_changed}
use yunmao.DeviceStore.{MemoryStore}
use yunmao.Mqttx
use yunmao.Mqttx.{Message, device_event_topic, split_from, split_topic}
use yunmao.Mqttx.Topics.{NoSlash}
use yunmao.Mqttx.Filters.{split_from-device_event_topic}
use yunmao.DeviceService.{mark_online, heartbeat_at}
use yunmao.Bridge.{
  Config, FeedAckPayload, EventData, acked, state, handle_mqtt_event, dispatch_parts, dispatch,
  on_feed_ack, on_cancel_ack, on_state, publish_ce, call_ack, call_heartbeat, is_ack, is_cancel,
  is_beat, is_state, ack_topic,
}
use yunmao.Bridge.Server.{World, Json, server_ports, publish_bus}

-- A message of a device about an event.
abbrev pub from_device : String → String → String → Message
from_device device event payload = record {
  topic = device_event_topic device event;
  payload = payload;
  qos = Mqttx.qos1;
  retain = false;
}

-- A device that answered is online, was seen now, and has the food that it reported, if any; a device
-- that is not stored is not added.
abbrev pub answered : String → ℕ → Time → MemoryStore → MemoryStore
answered device food now ds = elim (lookup device ds) [
  | none ↦ ds
  | some d ↦
      insert device
        (record d {
          online_status = "online";
          last_seen_at = now;
          remaining_food_grams = if nat_eq food 0 then d.remaining_food_grams else food;
          updated_at = now;
        })
        ds
]

mark_online-answered :
    (device : String) (food : ℕ) (now : Time) (ds : MemoryStore)
    → mark_online device food now ds ≡ answered device food now ds
unfolding mark_online DeviceStore.mark_online DeviceStore.change
mark_online-answered device food now ds = ground arith

heartbeat_at-answered :
    (device : String) (now : Time) (ds : MemoryStore)
    → heartbeat_at device now ds ≡ answered device 0 now ds
unfolding heartbeat_at DeviceStore.mark_online DeviceStore.change
heartbeat_at-answered device now ds = ground arith

is_ack_lem : (event : String) → is_ack event ≡ (event == "feed_ack" || event == "feed_done")
unfolding is_ack
is_ack_lem event = refl

is_beat_lem :
    (event : String)
    → is_beat event ≡ (event == "heartbeat" || event == "online" || event == "telemetry")
unfolding is_beat
is_beat_lem event = refl

cancel_not_beat : (event : String) → is_cancel event ≡ true → is_beat event ≡ false
unfolding is_cancel is_beat
cancel_not_beat event h = elim (Bool-cases (event == "cancelled")) [
  | inl e ↦ rw (eq_of_== event "cancelled" e) refl
  | inr n ↦ rw (eq_of_== event "cancel_ack" (ground arith)) refl
]

beat_state : (event : String) → is_state event ≡ false → is_beat event ≡ false
unfolding is_state
beat_state event h = ground arith

module _ {P H : Type 0} (j : Json P) (cfg : Config) where
  -- Publishing leaves the devices alone.
  published :
      (topic : Topic) (key subject : String) (content : EventData) (w : World P H)
      → (publish_ce (server_ports j) cfg topic key subject content w).1.devices ≡ w.devices
  unfolding publish_ce server_ports publish_bus
  published topic key subject content w = ground arith

  -- What the devices are after a message.
  abbrev pub devices_after : String → String → String → Time → World P H → MemoryStore
  devices_after device event payload now w =
      if event == "feed_ack" || event == "feed_done"
      then elim (j.read_ack payload) [
        | none ↦ w.devices
        | some ack ↦ answered device ack.remaining_food_grams now w.devices
      ]
      else if event == "heartbeat" || event == "online" || event == "telemetry"
      then answered device 0 now w.devices
      else w.devices

  -- The same, by the tests and the operations of the code.
  devices_marked : String → String → String → Time → World P H → MemoryStore
  devices_marked device event payload now w =
      if is_ack event
      then elim (j.read_ack payload) [
        | none ↦ w.devices
        | some ack ↦ mark_online device ack.remaining_food_grams now w.devices
      ]
      else if is_beat event
      then heartbeat_at device now w.devices
      else w.devices

  devices_marked-after :
      (device event payload : String) (now : Time) (w : World P H)
      → devices_marked device event payload now w ≡ devices_after device event payload now w
  unfolding devices_marked
  devices_marked-after device event payload now w = rw (is_ack_lem event) (
      rw (is_beat_lem event) (elim (Option-cases (j.read_ack payload)) [
        | inl h ↦ rw h (rw (heartbeat_at-answered device now w.devices) refl)
        | inr (ack, h) ↦ rw h (
            rw (heartbeat_at-answered device now w.devices)
              (rw (mark_online-answered device ack.remaining_food_grams now w.devices) refl))
      ]))

  ack_devices :
      (device event : String) (ack : FeedAckPayload) (now : Time) (w : World P H)
      → (on_feed_ack (server_ports j) cfg device event ack now w).1.devices
        ≡ mark_online device ack.remaining_food_grams now w.devices
  unfolding on_feed_ack call_ack server_ports
  ack_devices device event ack now w =
      let a = record ack { device_id = device } in
      published (ack_topic event a) a.room_id a.feed_request_id (acked a) _

  cancel_devices :
      (device : String) (ack : FeedAckPayload) (w : World P H)
      → (on_cancel_ack (server_ports j) cfg device ack w).1.devices ≡ w.devices
  unfolding on_cancel_ack
  cancel_devices device ack w = published _ _ _ _ w

  state_devices :
      (device event payload : String) (now : Time) (w : World P H)
      → (on_state (server_ports j) cfg device event payload now w).1.devices
        ≡ (if is_beat event then heartbeat_at device now w.devices else w.devices)
  unfolding on_state call_heartbeat server_ports
  state_devices device event payload now w =
      let w' =
        if is_beat event then record w { devices = heartbeat_at device now w.devices } else w in
      published device_state_changed device device (state device event payload) w' ∙ ground arith

  dispatch-devices :
      (device event payload : String) (now : Time) (w : World P H)
      → (dispatch (server_ports j) cfg device event payload now w).1.devices
        ≡ devices_marked device event payload now w
  unfolding dispatch server_ports devices_marked
  dispatch-devices device event payload now w = elim (Bool-cases (is_ack event)) [
    | inl e ↦ elim (Option-cases (j.read_ack payload)) [
      | inl h ↦ rw e (rw h refl)
      | inr (ack, h) ↦ rw e (rw h (ack_devices device event ack now w))
    ]
    | inr n ↦ rw n (elim (Bool-cases (is_cancel event)) [
      | inl e ↦ rw e (
          rw (cancel_not_beat event e) (elim (Option-cases (j.read_ack payload)) [
            | inl h ↦ rw h refl
            | inr (ack, h) ↦ rw h (cancel_devices device ack w)
          ]))
      | inr n' ↦ rw n' (elim (Bool-cases (is_state event)) [
        | inl e ↦ rw e (state_devices device event payload now w)
        | inr n'' ↦ rw n'' (rw (beat_state event n'') refl)
      ])
    ])
  ]

  -- What a device's message about an event does to the devices: "feed_ack" and "feed_done", if their
  -- payload is readable JSON, make the device of the topic online, seen now, and with the food that is
  -- left, if that is not 0; "heartbeat", "online" and "telemetry" make it online and seen now; any
  -- other event changes no device, and a device that is not stored is not added. The device that the
  -- payload names plays no part. The condition is that neither segment has a slash.
  pub handle_mqtt_event-devices :
      (device event payload : String) (now : Time) (w : World P H)
      → NoSlash device
      → NoSlash event
      → (handle_mqtt_event (server_ports j) cfg (from_device device event payload) now w).1.devices
        ≡ devices_after device event payload now w
  unfolding handle_mqtt_event dispatch_parts
  handle_mqtt_event-devices device event payload now w clean clean' =
      rw (split_from-device_event_topic device event clean clean') (
        dispatch-devices device event payload now w
        ∙ devices_marked-after device event payload now w)
