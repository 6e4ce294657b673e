-- ===== src/Mqttx/Tests.antt =====
-- Tests of the broker, and its theorems at concrete inputs.
use yunmao.Base.{◌≡◌, ◌↔◌, refl, true, false, ℕ, [], ◌∷◌, arith, eq_iff}
use yunmao.Mqttx.{
  MemoryBroker, split_topic, match_filter, broker_subscribe, MemoryClient, device_event_topic,
  device_command_topic,
}
use yunmao.Mqttx.Topics.{AllNoSlash, join, split_topic-join}
use yunmao.Mqttx.Filters.{Covers, match_filter_iff, match_filter-device_topics}

split_event :
    split_topic "device/dev_demo/event/feed_ack" ≡ "device" ∷ "dev_demo" ∷ "event" ∷ "feed_ack" ∷ []
unfolding split_topic
split_event = refl

split_empty_segments : split_topic "/a/" ≡ "" ∷ "a" ∷ "" ∷ []
unfolding split_topic
split_empty_segments = refl

-- What stands behind `#` is not looked at.
hash_inside : match_filter ("a" ∷ "#" ∷ "b" ∷ []) ("a" ∷ "c" ∷ []) ≡ true
unfolding match_filter
hash_inside = refl

split_topic-join_example :
    (join (split_topic "a/b") ≡ "a/b")
    × AllNoSlash (split_topic "a/b")
    × (split_topic (join ("device" ∷ "" ∷ [])) ≡ "device" ∷ "" ∷ [])
split_topic-join_example =
    split_topic-join "a/b" "device" ("" ∷ []) (omega arith) λ e. cc ((eq_iff "device/" "").1 e)

match_filter_iff_example :
    (match_filter ("device" ∷ "+" ∷ []) ("device" ∷ "d" ∷ []) ≡ true)
    ↔ Covers ("device" ∷ "+" ∷ []) ("device" ∷ "d" ∷ [])
match_filter_iff_example = match_filter_iff ("device" ∷ "+" ∷ []) ("device" ∷ "d" ∷ [])

match_filter-device_topics_example :
    (match_filter (split_topic "device/+/event/+") (split_topic (device_event_topic "d" "online"))
      ≡ true)
    × (match_filter (split_topic "device/+/event/+") (split_topic (device_command_topic "d" "feed"))
        ≡ false)
match_filter-device_topics_example = match_filter-device_topics "d" "online" "feed" (omega arith)

-- A broker with one subscription of the device simulator.
abbrev broker : MemoryBroker ℕ
unfolding broker_subscribe
broker = broker_subscribe "sim" "device/d/cmd/+" 7 []

abbrev sim : MemoryClient
sim = record { client_id = "sim"; connected = true }
