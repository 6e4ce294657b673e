-- ===== src/FeedingService/Invariant.antt =====
-- What holds of the feeding service in outbox mode between two calls, and how a call that concerns
-- one request keeps it.
use yunmao.Base.{
  ◌≡◌, ◌≢◌, refl, sym, ◌∙◌, ◌⊎◌, inl, inr, String, Option, some, none, lookup, insert, erase,
  lookup-insert_self, lookup-insert_ne, lookup-erase, lookup-erase_self, arith, Bool-cases, List,
  [], ◌∷◌, if◌then◌else◌, ◌==◌, eq_refl, eq_of_==, ne_of_==, ==_of_ne, Time,
}
use mathlib.Core.Path.{subst}
use yunmao.FeedState.{State, dispatched, rejected, succeeded, failed, transition}
use yunmao.FeedState
use yunmao.FeedingService.{
  Request, StateChangeEvent, FeedingService, advance, transition_locked, moved, receipt_of,
}

-- The request in the latest event of a number.
abbrev pub last_snapshot : String → List StateChangeEvent → Option Request
last_snapshot k [] = none
last_snapshot k (e ∷ es) = if e.feed_request_id == k then some e.snapshot else last_snapshot k es

-- The states that a request without a receipt has.
abbrev pub IsFinal : State → Type 0
IsFinal st = (st ≡ rejected) ⊎ ((st ≡ succeeded) ⊎ (st ≡ failed))

-- A request is dispatched, or it is final and its receipt is given up.
abbrev pub IsSettled : State → String → Type 0
IsSettled st receipt = (st ≡ dispatched) ⊎ (IsFinal st × (receipt ≡ ""))

-- The request after an allowed move, and the service after it.
abbrev pub after_move : Request → State → Time → Request
after_move r next now = record r { status = next; updated_at = now }

abbrev pub move_event : Request → State → String → Time → StateChangeEvent
move_event r next reason now = record {
  feed_request_id = r.id;
  from = r.status;
  to = next;
  reason = reason;
  snapshot = after_move r next now;
}

module _ {C B : Type 0} where
  abbrev pub Fits : String → Request → FeedingService C B → Type 0
  Fits k r s =
      (r.id ≡ k) × IsSettled r.status (receipt_of k s) × (last_snapshot k s.events ≡ some r)

  -- Every stored request is stored under its number, is dispatched or settled, and is what its
  -- latest event shows.
  abbrev pub Inv : FeedingService C B → Type 0
  Inv s = (k : String) (r : Request) → lookup k s.requests ≡ some r → Fits k r s

  -- Nothing changed but the request of one number, and its receipt and events.
  abbrev pub Others : String → FeedingService C B → FeedingService C B → Type 0
  Others k s t =
      (j : String)
      → k ≢ j
      → (lookup j t.requests ≡ lookup j s.requests)
        × (receipt_of j t ≡ receipt_of j s)
        × (last_snapshot j t.events ≡ last_snapshot j s.events)

  pub Others-trans :
      (k : String) (s t u : FeedingService C B) → Others k s t → Others k t u → Others k s u
  Others-trans k s t u f g j ne =
      let (a, b, c) = f j ne in let (a', b', c') = g j ne in (a' ∙ a, b' ∙ b, c' ∙ c)

  pub keep :
      (k : String) (s t : FeedingService C B)
      → Inv s
      → Others k s t
      → ((r : Request) → lookup k t.requests ≡ some r → Fits k r t)
      → Inv t
  keep k s t v others own j r found = elim (Bool-cases (k == j)) [
    | inl e ↦ subst (λ i. lookup i t.requests ≡ some r → Fits i r t) (eq_of_== k j e) (own r) found
    | inr e ↦
        let (a, b, c) = others j (ne_of_== k j e) in
        let (x, y, z) = v j r (sym a ∙ found) in (x, rw b y, c ∙ z)
  ]

  -- A state of the receipts and nothing else.
  pub drop_receipt :
      (k : String) (s : FeedingService C B)
      → Others k s (record s { receipts = erase k s.receipts })
  unfolding receipt_of
  drop_receipt k s j ne = (refl, ground (arith, lookup-erase k j s.receipts, ==_of_ne k j ne), refl)

  pub dropped_receipt :
      (k : String) (s : FeedingService C B)
      → receipt_of k (record s { receipts = erase k s.receipts }) ≡ ""
  unfolding receipt_of
  dropped_receipt k s = rw (lookup-erase_self k s.receipts, receipt_of)

  pub advance_ok :
      (r : Request) (to next : State) (reason : String) (now : Time) (s : FeedingService C B)
      → transition r.status to ≡ FeedState.ok next
      → advance r to reason now s ≡ (
        after_move r next now,
        record s {
          requests = insert r.id (after_move r next now) s.requests;
          events = move_event r next reason now ∷ s.events;
        },
      )
  unfolding advance transition_locked moved
  advance_ok r to next reason now s h = rw h

  pub advance-Others :
      (r : Request) (to next : State) (reason : String) (now : Time) (s : FeedingService C B)
      → transition r.status to ≡ FeedState.ok next
      → Others r.id s (advance r to reason now s).1
  unfolding receipt_of
  advance-Others r to next reason now s h j ne =
      rw (advance_ok r to next reason now s h) (
        lookup-insert_ne r.id j (after_move r next now) s.requests ne,
        refl,
        rw (==_of_ne r.id j ne),
      )

  pub advance_shows :
      (r : Request) (to next : State) (reason : String) (now : Time) (s : FeedingService C B)
      → transition r.status to ≡ FeedState.ok next
      → let t = (advance r to reason now s).1 in
        (lookup r.id t.requests ≡ some (after_move r next now))
        × (last_snapshot r.id t.events ≡ some (after_move r next now))
        × (receipt_of r.id t ≡ receipt_of r.id s)
  unfolding receipt_of
  advance_shows r to next reason now s h =
      rw (advance_ok r to next reason now s h)
        (lookup-insert_self r.id (after_move r next now) s.requests, rw (eq_refl r.id), refl)
