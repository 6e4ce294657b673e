-- ===== src/Outbox/Tests.antt =====
-- Tests of the relay, and its theorems at concrete inputs.
use yunmao.Base.{ℕ, suc, ◌≡◌, refl, Bool, true, false, [], ◌∷◌, ltb, returns}
use yunmao.Outbox.{
  OutboxRow, Tables, RelayConfig, Faults, fetch_unpublished, process_batch, default_backoff,
  new_relay,
}
use yunmao.Outbox.Delivery.{Settles, process_batch-Settles}

abbrev row : ℕ → Bool → OutboxRow
row n sent = record {
  id = n;
  topic = "order.paid";
  partition_key = "o";
  payload = 1 ∷ [];
  headers = [];
  region_id = "global";
  published = sent;
}

abbrev tables : Tables
tables = record { outbox = row 1 true ∷ row 2 false ∷ row 3 false ∷ []; outbox_dlq = [] }

abbrev config : RelayConfig
config = new_relay (record { batch_size = 0; max_attempts = 2 })

abbrev sound : Faults
sound = record {
  begin = false;
  fetch = false;
  mark = false;
  commit = false;
  dlq = λ n. false;
  stopped = λ n k. false;
}

-- A publisher that counts its calls and takes the rows from number 3 on.
abbrev publisher : OutboxRow → ℕ → Bool × ℕ
publisher r n = (ltb 2 r.id, suc n)

-- Row 2 fails twice and dies, row 3 goes through.
process_batch_run : process_batch publisher config sound (λ n. false) tables 0 ≡ (
  returns 1,
  record { outbox = row 1 true ∷ row 3 true ∷ []; outbox_dlq = row 2 false ∷ [] },
  3,
)
unfolding process_batch new_relay
process_batch_run = refl

process_batch-Settles_example :
    Settles publisher (fetch_unpublished (λ n. false) 64 (tables).outbox) tables (
      process_batch publisher
        (record { batch_size = 64; max_attempts = 2 })
        sound
        (λ n. false)
        tables
        0)
process_batch-Settles_example =
    process_batch-Settles publisher (record { batch_size = 64; max_attempts = 2 }) sound
      (λ n. false) tables 0

backoff_third : default_backoff 3 ≡ 800
unfolding default_backoff
backoff_third = refl
