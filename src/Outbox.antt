-- ===== src/Outbox.antt =====
-- The transactional outbox and its relay, go/pkg/yunmao/db/outbox.go. The tables are lists of rows
-- in the order of their numbers; a transaction is the tables it would commit. What can go wrong
-- in the database is an argument, and so is the publisher, with its own state `P`.
pub mod Rows
pub mod Delivery
mod Tests
use yunmao.Base.{
  ℕ, zero, suc, ◌+◌, ◌-◌, ◌*◌, String, Bool, true, false, not, ◌&&◌, ◌||◌, ltb, leb, nat_eq,
  if◌then◌else◌, List, [], ◌∷◌, ◌++◌, length, ◌==◌, Dict, Fallible, returns, fails,
}

pub record OutboxRow : Type 0 where
  pub id : ℕ
  pub topic : String
  pub partition_key : String
  pub payload : List ℕ
  pub headers : Dict String
  pub region_id : String
  pub published : Bool  -- published_at IS NOT NULL

pub record Tables : Type 0 where
  pub outbox : List OutboxRow
  pub outbox_dlq : List OutboxRow

-- `InsertOutbox`: `id` is the next number of the table.
unfoldable pub insert_outbox : Tables → OutboxRow → ℕ → Fallible String ℕ × Tables
insert_outbox t row id =
    let region = if row.region_id == "" then "global" else row.region_id in
    let row' = record row { id = id; region_id = region; published = false } in
    if row.topic == ""
    then (fails "outbox: topic required", t)
    else if nat_eq (length row.payload) 0
    then (fails "outbox: payload required", t)
    else (returns id, record t { outbox = t.outbox ++ (row' ∷ []) })

-- The loop over the unpublished rows that no other worker has locked, at most `batch`.
unfoldable pub fetch_at_most : (ℕ → Bool) → ℕ → List OutboxRow → List OutboxRow
fetch_at_most locked zero rows = []
fetch_at_most locked (suc batch) [] = []
fetch_at_most locked (suc batch) (r ∷ rows) =
    let taken = fetch_at_most locked batch rows in
    let skipped = fetch_at_most locked (suc batch) rows in
    if r.published || locked r.id then skipped else r ∷ taken

unfoldable pub fetch_unpublished : (ℕ → Bool) → ℕ → List OutboxRow → List OutboxRow
unfolding fetch_at_most
fetch_unpublished locked batch rows =
    fetch_at_most locked (if nat_eq batch 0 then 64 else batch) rows

unfoldable pub has_id : ℕ → List ℕ → Bool
has_id n [] = false
has_id n (i ∷ ids) = nat_eq i n || has_id n ids

-- `id = ANY(ids)`
unfoldable pub mark_published : List ℕ → List OutboxRow → List OutboxRow
unfolding has_id
mark_published ids [] = []
mark_published ids (r ∷ rows) =
    let rest = mark_published ids rows in
    (if has_id r.id ids then record r { published = true } else r) ∷ rest

unfoldable pub delete_row : ℕ → List OutboxRow → List OutboxRow
delete_row n [] = []
delete_row n (r ∷ rows) = let rest = delete_row n rows in if nat_eq r.id n then rest else r ∷ rest

unfoldable pub row_ids : List OutboxRow → List ℕ
row_ids [] = []
row_ids (r ∷ rows) = r.id ∷ row_ids rows

-- `MarkDLQ`; the insertion does nothing for a number that is there.
unfoldable pub mark_dlq : OutboxRow → Tables → Tables
unfolding delete_row has_id row_ids
mark_dlq row t = record {
  outbox = delete_row row.id t.outbox;
  outbox_dlq = if has_id row.id (row_ids t.outbox_dlq) then t.outbox_dlq else row ∷ t.outbox_dlq;
}

-- `defaultBackoff`, in milliseconds.
unfoldable pub backoff_loop : ℕ → ℕ → ℕ
backoff_loop zero d = d
backoff_loop (suc n) d = let rest = backoff_loop n (d * 2) in if ltb d 2000 then rest else d

unfoldable pub default_backoff : ℕ → ℕ
unfolding backoff_loop
default_backoff attempt = let d = backoff_loop attempt 100 in if ltb 2000 d then 2000 else d

pub record RelayConfig : Type 0 where
  pub batch_size : ℕ
  pub max_attempts : ℕ

-- `NewRelay`: the defaults for fields that are 0.
unfoldable pub new_relay : RelayConfig → RelayConfig
new_relay cfg = record {
  batch_size = if nat_eq cfg.batch_size 0 then 64 else cfg.batch_size;
  max_attempts = if nat_eq cfg.max_attempts 0 then 5 else cfg.max_attempts;
}

-- What goes wrong in a batch: in the statements of the transaction, and a stop while the relay
-- waits after an attempt on a row.
pub record Faults : Type 0 where
  pub begin : Bool
  pub fetch : Bool
  pub mark : Bool
  pub commit : Bool
  pub dlq : ℕ → Bool
  pub stopped : ℕ → ℕ → Bool

module _ {P : Type 0} (publish : OutboxRow → P → Bool × P) where
  -- The attempts that are left, of which the first has the given number.
  unfoldable pub attempts : (ℕ → Bool) → OutboxRow → ℕ → ℕ → P → Bool × P
  attempts stopped row zero n p = (false, p)
  attempts stopped row (suc left) n p =
      let (ok, p') = publish row p in
      let again = attempts stopped row left (suc n) p' in
      if ok then (true, p') else if nat_eq left 0 || stopped n then (false, p') else again

  unfoldable pub publish_with_retry : RelayConfig → Faults → OutboxRow → P → Bool × P
  unfolding attempts
  publish_with_retry cfg faults row p = attempts (faults.stopped row.id) row cfg.max_attempts 0 p

  -- The loop over the fetched rows: the numbers of the published ones, or the error of MarkDLQ.
  unfoldable pub deliver :
      RelayConfig → Faults → List OutboxRow → Tables → P → Fallible ℕ (List ℕ) × Tables × P
  unfolding publish_with_retry mark_dlq
  deliver cfg faults [] t p = (returns [], t, p)
  deliver cfg faults (row ∷ rows) t p =
      let (ok, p') = publish_with_retry cfg faults row p in
      let sent = deliver cfg faults rows t p' in
      let dead = deliver cfg faults rows (mark_dlq row t) p' in
      if ok
      then (
        elim sent.0 [ returns ids ↦ returns (row.id ∷ ids) | fails n ↦ fails (suc n) ],
        sent.1,
        sent.2,
      )
      else if faults.dlq row.id
      then (fails 0, t, p')
      else dead

  -- The end of the transaction: a rollback leaves the tables as they were.
  unfoldable pub finish_batch :
      Faults → Tables → Fallible ℕ (List ℕ) → Tables → P → Fallible ℕ ℕ × Tables × P
  unfolding mark_published
  finish_batch faults before (fails n) t p = (fails n, before, p)
  finish_batch faults before (returns ids) t p =
      if faults.mark && not (nat_eq (length ids) 0) || faults.commit
      then (fails 0, before, p)
      else (returns (length ids), record t { outbox = mark_published ids t.outbox }, p)

  -- `processBatch`: the number of published rows, beside an error or not.
  unfoldable pub process_batch :
      RelayConfig → Faults → (ℕ → Bool) → Tables → P → Fallible ℕ ℕ × Tables × P
  unfolding fetch_unpublished deliver finish_batch
  process_batch cfg faults locked t p =
      let rows = fetch_unpublished locked cfg.batch_size t.outbox in
      let (r, t', p') = deliver cfg faults rows t p in
      if faults.begin || faults.fetch
      then (fails 0, t, p)
      else if nat_eq (length rows) 0
      then (returns 0, t, p)
      else finish_batch faults t r t' p'
