-- ===== src/Pay/Reconcile.antt =====
-- The reconciliation of orders with their channels, go/services/billing-svc/internal/pay/reconcile.go.
pub mod Judging
pub mod Complete
use yunmao.Base.{
  ℕ, String, append, Bool, true, false, not, ◌&&◌, Option, none, some, if◌then◌else◌, ℤ, pos, ltb_ℤ,
  nat_eq, pos_part, neg_part, ◌+◌, Fallible, returns, fails, List, [], ◌∷◌, ◌++◌, ◌==◌, Time,
}
use yunmao.Pay.{Channel, PayChannel, QueryResult, Registry, get}

pub record ReconcileRecord : Type 0 where
  pub run_id : String
  pub channel : Channel
  pub order_id : String
  pub external_trade_no : String
  pub local_status : String
  pub remote_status : String
  pub local_amount_fen : ℤ
  pub remote_amount_fen : ℤ
  pub diff_reason : String
  pub created_at : Time

pub record LocalOrder : Type 0 where
  pub order_id : String
  pub channel : Channel
  pub status : String
  pub amount_fen : ℤ

-- InMemoryReconcileSink
pub record Sink : Type 0 where
  pub records : List ReconcileRecord
  pub diffs : List ReconcileRecord

unfoldable pub write_record : ReconcileRecord → Sink → Sink
write_record r s = record s { records = s.records ++ r ∷ [] }

unfoldable pub emit_diff : ReconcileRecord → Sink → Sink
emit_diff r s = record s { diffs = s.diffs ++ r ∷ [] }

-- The status and the amount that a channel answered.
unfoldable pub remote_of : Fallible String (Option QueryResult) → String × ℤ
remote_of (fails e) = (append "query_error:" e, pos 0)
remote_of (returns none) = ("", pos 0)
remote_of (returns (some q)) = (q.status, q.amount_fen)

-- `a == b` on int64
abbrev pub eq_ℤ : ℤ → ℤ → Bool
eq_ℤ a b = nat_eq (pos_part a + neg_part b) (pos_part b + neg_part a)

unfoldable pub diff_of : LocalOrder → String × ℤ → String
diff_of o (status, amount) =
    let diff = if not (status == o.status) && not (status == "") then "status_mismatch" else "" in
    if ltb_ℤ (pos 0) amount && not (eq_ℤ amount o.amount_fen)
    then if diff == "" then "amount_mismatch" else append diff ",amount_mismatch"
    else diff

unfoldable pub record_of : String → LocalOrder → String × ℤ → Time → ReconcileRecord
unfolding diff_of
record_of run o remote now = record {
  run_id = run;
  channel = o.channel;
  order_id = o.order_id;
  external_trade_no = "";
  local_status = o.status;
  remote_status = remote.0;
  local_amount_fen = o.amount_fen;
  remote_amount_fen = remote.1;
  diff_reason = diff_of o remote;
  created_at = now;
}

-- What is written for a record.
unfoldable pub written : ReconcileRecord → Sink → Sink
unfolding write_record emit_diff
written r s = let s' = write_record r s in if r.diff_reason == "" then s' else emit_diff r s'

-- The loop over the orders, each with the time its record is made; the channels keep their state.
module _ {S : Type 0} (registry : Registry S) (run : String) where
  unfoldable pub check_order : LocalOrder → Time → Sink × S → Sink × S
  unfolding get remote_of record_of written
  check_order o now (sink, s) = elim (get o.channel registry) [
    | fails e ↦ (sink, s)
    | returns ch ↦
        let (answer, s') = ch.query_status o.order_id s in
        (written (record_of run o (remote_of answer) now) sink, s')
  ]

  unfoldable pub run_orders : List (LocalOrder × Time) → Sink × S → Sink × S
  unfolding check_order
  run_orders [] w = w
  run_orders ((o, now) ∷ os) w = run_orders os (check_order o now w)

  -- RunOnce, on what the source of orders returned.
  unfoldable pub run_once :
      Fallible String (List (LocalOrder × Time)) → Sink × S → Fallible String (Unit {0}) × Sink × S
  unfolding run_orders
  run_once (fails e) (sink, s) = (fails e, sink, s)
  run_once (returns os) w = let (sink, s) = run_orders os w in (returns tt, sink, s)
