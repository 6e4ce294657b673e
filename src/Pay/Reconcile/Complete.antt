-- ===== src/Pay/Reconcile/Complete.antt =====
-- What a round of reconciliation writes.
use mathlib.Core.List.{append-nil, append_assoc}
use mathlib.Core.Path.{subst}
use yunmao.Base.{
  String, append, ◌≡◌, refl, sym, ap, ◌∙◌, ◌↔◌, arith, ◌⊎◌, inl, inr, Bool-cases, ℤ, pos, Fallible,
  returns, fails, Option, none, some, List, [], ◌∷◌, ◌++◌, ◌==◌, Time, if◌then◌else◌,
}
use yunmao.Pay.{Registry, PayChannel, QueryResult, get}
use yunmao.Pay.Reconcile.{
  ReconcileRecord, LocalOrder, Sink, record_of, remote_of, written, write_record, emit_diff,
  check_order, run_orders,
}
use yunmao.Pay.Reconcile.Judging.{Agrees, diff_of_iff}

-- The records that have a reason.
abbrev pub differing : List ReconcileRecord → List ReconcileRecord
differing [] = []
differing (r ∷ rs) = let rest = differing rs in if r.diff_reason == "" then rest else r ∷ rest

-- The record has what the channel answered: its status and amount, the text of its error, or nothing.
abbrev pub Answered : Fallible String (Option QueryResult) → ReconcileRecord → Type 0
Answered (fails e) r = (r.remote_status ≡ append "query_error:" e) × (r.remote_amount_fen ≡ pos 0)
Answered (returns none) r = (r.remote_status ≡ "") × (r.remote_amount_fen ≡ pos 0)
Answered (returns (some q)) r = (r.remote_status ≡ q.status) × (r.remote_amount_fen ≡ q.amount_fen)

-- The record is about the order, in this round and at this time.
abbrev pub IsAbout : String → LocalOrder → Time → ReconcileRecord → Type 0
IsAbout run o now r =
    (r.run_id ≡ run)
    × (r.channel ≡ o.channel)
    × (r.order_id ≡ o.order_id)
    × (r.local_status ≡ o.status)
    × (r.local_amount_fen ≡ o.amount_fen)
    × (r.created_at ≡ now)

-- The records of a round: each order whose channel is registered has one, which is about the order,
-- has the channel's answer in the state that the queries before it left, and has no reason exactly
-- if the answer agrees with the order. The other orders have none.
pub data Reconciled {S : Type 0} (registry : Registry S) (run : String)
    : List (LocalOrder × Time) → S → List ReconcileRecord → S → Type 0 where
  finished : (s : S) → Reconciled registry run [] s [] s
  unknown :
      (o : LocalOrder) (now : Time) (os : List (LocalOrder × Time)) (s : S)
      (rs : List ReconcileRecord) (s' : S) (e : String)
      → get o.channel registry ≡ fails e
      → Reconciled registry run os s rs s'
      → Reconciled registry run ((o, now) ∷ os) s rs s'
  checked :
      (o : LocalOrder) (now : Time) (os : List (LocalOrder × Time)) (s : S) (r : ReconcileRecord)
      (rs : List ReconcileRecord) (s' : S) (ch : PayChannel S)
      → get o.channel registry ≡ returns ch
      → IsAbout run o now r
      → Answered (ch.query_status o.order_id s).0 r
      → ((r.diff_reason ≡ "") ↔ Agrees r)
      → Reconciled registry run os (ch.query_status o.order_id s).1 rs s'
      → Reconciled registry run ((o, now) ∷ os) s (r ∷ rs) s'

-- What a round adds to the sink.
abbrev pub Adds :
    {S : Type 0} → Registry S → String → List (LocalOrder × Time) → Sink × S → Sink × S → Type 0
Adds registry run os w w' =
    (rs : List ReconcileRecord) × Reconciled registry run os w.1 rs w'.1
    × (w'.0.records ≡ w.0.records ++ rs)
    × (w'.0.diffs ≡ w.0.diffs ++ differing rs)

remote_of-Answered :
    (run : String) (o : LocalOrder) (answer : Fallible String (Option QueryResult)) (now : Time)
    → Answered answer (record_of run o (remote_of answer) now)
unfolding remote_of record_of
remote_of-Answered run o (fails e) now = (refl, refl)
remote_of-Answered run o (returns none) now = (refl, refl)
remote_of-Answered run o (returns (some q)) now = (refl, refl)

record_of-IsAbout :
    (run : String) (o : LocalOrder) (remote : String × ℤ) (now : Time)
    → IsAbout run o now (record_of run o remote now)
unfolding record_of
record_of-IsAbout run o remote now = (refl, refl, refl, refl, refl, refl)

written_sink :
    (r : ReconcileRecord) (s : Sink)
    → written r s ≡ record { records = s.records ++ r ∷ []; diffs = s.diffs ++ differing (r ∷ []) }
unfolding written write_record emit_diff
written_sink r s = elim (Bool-cases (r.diff_reason == "")) [
  | inl e ↦ rw e (rw (append-nil s.diffs) refl)
  | inr n ↦ rw n refl
]

differing_cons :
    (r : ReconcileRecord) (rs : List ReconcileRecord)
    → differing (r ∷ rs) ≡ differing (r ∷ []) ++ differing rs
differing_cons r rs = elim (Bool-cases (r.diff_reason == "")) [
  | inl e ↦ rw e refl
  | inr n ↦ rw n refl
]

found : {E A : Type 0} (r : Fallible E A) → ((e : E) × (r ≡ fails e)) ⊎ ((a : A) × (r ≡ returns a))
found (fails e) = inl (e, refl)
found (returns a) = inr (a, refl)

module _ {S : Type 0} (registry : Registry S) (run : String) where
  check_unknown :
      (o : LocalOrder) (now : Time) (sink : Sink) (s : S) (e : String)
      → get o.channel registry ≡ fails e
      → check_order registry run o now (sink, s) ≡ (sink, s)
  unfolding check_order
  check_unknown o now sink s e h = ground arith

  check_known :
      (o : LocalOrder) (now : Time) (sink : Sink) (s : S) (ch : PayChannel S)
      → get o.channel registry ≡ returns ch
      → let (answer, s') = ch.query_status o.order_id s in
        check_order registry run o now (sink, s)
        ≡ (written (record_of run o (remote_of answer) now) sink, s')
  unfolding check_order
  check_known o now sink s ch h = ground arith

  skipped :
      (o : LocalOrder) (now : Time) (os : List (LocalOrder × Time)) (w w' : Sink × S) (e : String)
      → get o.channel registry ≡ fails e
      → Adds registry run os w w'
      → Adds registry run ((o, now) ∷ os) w w'
  skipped o now os w w' e h (rs, done, recs, diffs) =
      (rs, unknown o now os w.1 rs w'.1 e h done, recs, diffs)

  recorded :
      (o : LocalOrder) (now : Time) (os : List (LocalOrder × Time)) (sink : Sink) (s : S)
      (ch : PayChannel S) (w' : Sink × S)
      → get o.channel registry ≡ returns ch
      → let (answer, s') = ch.query_status o.order_id s in
        Adds registry run os (written (record_of run o (remote_of answer) now) sink, s') w'
        → Adds registry run ((o, now) ∷ os) (sink, s) w'
  recorded o now os sink s ch w' known (rs, done, recs, diffs) =
      let remote = remote_of (ch.query_status o.order_id s).0 in
      let r = record_of run o remote now in
      let e = written_sink r sink in
      (
        r ∷ rs,
        checked o now os s r rs w'.1 ch known (record_of-IsAbout run o remote now)
            (remote_of-Answered run o (ch.query_status o.order_id s).0 now)
            (diff_of_iff run o remote now) done,
        recs ∙ ap (λ x. x.records ++ rs) e ∙ append_assoc sink.records (r ∷ []) rs,
        diffs
            ∙ ap (λ x. x.diffs ++ differing rs) e
            ∙ append_assoc sink.diffs (differing (r ∷ [])) (differing rs)
            ∙ ap (λ x. sink.diffs ++ x) (sym (differing_cons r rs)),
      )

  stepped :
      (o : LocalOrder) (now : Time) (os : List (LocalOrder × Time)) (w v : Sink × S)
      → check_order registry run o now w ≡ v
      → Adds registry run ((o, now) ∷ os) w (run_orders registry run os v)
      → Adds registry run ((o, now) ∷ os) w (run_orders registry run ((o, now) ∷ os) w)
  unfolding run_orders
  stepped o now os w v e h =
      subst (λ x. Adds registry run ((o, now) ∷ os) w (run_orders registry run os x)) (sym e) h

  -- A round adds one record for each order whose channel is registered, in the order of the orders.
  -- It is about the order, and has the status and the amount that the channel answers when it is asked
  -- for the order, after the orders before it; it has no reason exactly if this status is the order's
  -- or none, and this amount the order's or not positive. The records that have a reason are those
  -- sent as differences.
  pub run_orders-Adds :
      (os : List (LocalOrder × Time)) (sink : Sink) (s : S)
      → Adds registry run os (sink, s) (run_orders registry run os (sink, s))
  unfolding run_orders
  run_orders-Adds [] sink s =
      ([], finished s, sym (append-nil sink.records), sym (append-nil sink.diffs))
  run_orders-Adds ((o, now) ∷ os) sink s = elim (found (get o.channel registry)) [
    | inl (e, h) ↦
        stepped o now os (sink, s) (sink, s) (check_unknown o now sink s e h)
          (skipped o now os (sink, s) _ e h (run_orders-Adds os sink s))
    | inr (ch, h) ↦
        let (answer, s') = ch.query_status o.order_id s in
        let r = record_of run o (remote_of answer) now in
        stepped o now os (sink, s) (written r sink, s') (check_known o now sink s ch h)
          (recorded o now os sink s ch _ h (run_orders-Adds os (written r sink) s'))
  ]
