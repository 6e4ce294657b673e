-- ===== src/Bridge/Server.antt =====
-- The bridge as go/services/device-svc/server/server.go wires it: the in-process bus, the in-process
-- MQTT client and the devices, which an acknowledgement or a heartbeat marks as online.
use yunmao.Base.{String, Option, some, returns, fails, Action, List, ◌++◌}
use yunmao.EventBus.{Topic, Envelope, MemoryBus}
use yunmao.EventBus
use yunmao.Mqttx.{MemoryBroker, MemoryClient, Message}
use yunmao.Mqttx
use yunmao.DeviceStore.{MemoryStore}
use yunmao.DeviceService.{mark_online, heartbeat_at}
use yunmao.Bridge.{FeedCommandPayload, FeedAckPayload, EventData, Ports}

-- `inbox` is what the handlers of the broker were called with.
pub record World (P H : Type 0) : Type 0 where
  pub bus : MemoryBus P
  pub broker : MemoryBroker H
  pub client : MemoryClient
  pub inbox : List (H × Message)
  pub devices : MemoryStore

-- The JSON library, on the payloads of the bridge.
pub record Json (P : Type 0) : Type 0 where
  pub read_command : P → Option FeedCommandPayload
  pub write_command : FeedCommandPayload → String
  pub read_ack : String → Option FeedAckPayload
  pub event : Topic → String → String → EventData → Option P

module _ {P H : Type 0} where
  unfoldable pub publish_bus : Envelope P → Action (World P H) String (Unit {0})
  unfolding EventBus.publish
  publish_bus env w = let (r, b) = EventBus.publish env w.bus in (r, record w { bus = b })

  unfoldable pub publish_mqtt : String → String → Action (World P H) String (Unit {0})
  unfolding Mqttx.publish
  publish_mqtt topic payload w = elim (Mqttx.publish w.client topic payload w.broker) [
    | fails e ↦ (fails e, w)
    | returns calls ↦ (returns tt, record w { inbox = w.inbox ++ calls })
  ]

  unfoldable pub server_ports : Json P → Ports P (World P H)
  unfolding publish_bus publish_mqtt mark_online heartbeat_at
  server_ports j = record {
    read_command = j.read_command;
    write_command = j.write_command;
    read_ack = j.read_ack;
    event = j.event;
    publish_bus = publish_bus;
    publish_mqtt = publish_mqtt;
    on_ack = some λ ack now w. record w {
      devices = mark_online ack.device_id ack.remaining_food_grams now w.devices;
    };
    on_heartbeat = some λ device at w. record w { devices = heartbeat_at device at w.devices };
  }
