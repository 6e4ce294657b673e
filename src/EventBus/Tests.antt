-- ===== src/EventBus/Tests.antt =====
-- Tests of the bus, and its theorems at concrete inputs.
use yunmao.Base.{ℕ, ◌≡◌, refl, String, false, List, [], ◌∷◌, ◌++◌, arith, lookup}
use yunmao.EventBus.{MemoryBus, Envelope, feed_command_acked, channels_of, dlq}
use yunmao.EventBus.Delivery.{Turn, publishes, receives, run, received, sent_to, received-run}

dlq_acked : dlq feed_command_acked ≡ "feed.command.acked.dlq"
unfolding dlq
dlq_acked = refl

abbrev acked : String → Envelope ℕ
acked key = record { topic = feed_command_acked; key = key; headers = []; payload = 1 }

-- Channel 4 reads the acknowledgements.
abbrev bus : MemoryBus ℕ
bus = record {
  subs = (feed_command_acked, 4 ∷ []) ∷ [];
  queues = λ c. [];
  next = 5;
  closed = false;
}

abbrev turns : List (Turn ℕ)
turns = publishes (acked "a") ∷ receives 4 ∷ publishes (acked "b") ∷ []

received_first : received 4 turns bus ≡ acked "a" ∷ []
unfolding received lookup
received_first = refl

received-run_example :
    received 4 turns bus ++ (run turns bus).queues 4 ≡ bus.queues 4 ++ sent_to 4 bus.subs turns
unfolding channels_of lookup
received-run_example = received-run 4 turns bus refl (omega arith) (omega arith)
