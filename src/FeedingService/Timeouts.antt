-- ===== src/FeedingService/Timeouts.antt =====
-- TimeoutScanRun fails every overdue request and no other.
use yunmao.Base.{
  Bool, sub_time, ◌||◌, ◌&&◌, if_true, if_false, ℕ, suc, ◌≡◌, refl, ◌∙◌, ap, inl, inr, String, true,
  false, Option, some, none, Dict, [], ◌∷◌, lookup, insert, erase, lookup-insert, arith, Bool-cases,
  if◌then◌else◌, ◌==◌, eq_iff, Time, Duration, pos, leb_ℤ,
}
use yunmao.FeedState.{queued, dispatched, failed, state_eq, transition}
use yunmao.FeedState
use yunmao.FeedingService.{Request, Deps, FeedingService, advance, receipt_of}
use yunmao.FeedingService.Handlers.{time_out, is_overdue, scan, timeout_scan_run, give_back}
use yunmao.FeedingService.Invariant.{advance_ok}
use yunmao.FeedingService.Steps.{give_back_core}

-- A map of requests by their numbers, with no number twice.
abbrev pub IsKeyed : Dict Request → Type 0
IsKeyed [] = Unit {0}
IsKeyed ((k, r) ∷ rows) = (r.id ≡ k) × (lookup k rows ≡ none) × IsKeyed rows

-- The request after its timeout.
abbrev pub timed_out : Request → Time → Request
timed_out r now = record r { reject_reason = "timeout"; status = failed; updated_at = now }

-- A request waits for its device, and its last change is at least the limit ago.
abbrev pub is_late : Duration → Time → Request → Bool
is_late ttl now r =
    (state_eq r.status queued || state_eq r.status dispatched)
    && leb_ℤ ttl (sub_time now r.updated_at)

is_overdue_lem :
    (ttl : Duration) (now : Time) (r : Request) → is_overdue ttl now r ≡ is_late ttl now r
unfolding is_overdue
is_overdue_lem ttl now r = ground arith

-- What a scan makes of a stored request.
abbrev pub scanned : Duration → Time → Option Request → Option Request
scanned ttl now none = none
scanned ttl now (some r) = some (if is_late ttl now r then timed_out r now else r)

-- How many requests are overdue.
abbrev pub overdue_count : Duration → Time → Dict Request → ℕ
overdue_count ttl now [] = 0
overdue_count ttl now ((_, r) ∷ rows) =
    if is_late ttl now r then suc (overdue_count ttl now rows) else overdue_count ttl now rows

fails_allowed :
    (ttl : Duration) (now : Time) (r : Request)
    → is_overdue ttl now r ≡ true
    → transition r.status failed ≡ FeedState.ok failed
unfolding is_overdue transition
fails_allowed ttl now r h = ground arith

scanned_lem :
    (ttl : Duration) (now : Time) (o kept : Option Request)
    → kept ≡ o
    → elim o [
      | none ↦ kept
      | some r ↦ if is_overdue ttl now r then some (timed_out r now) else kept
    ]
      ≡ scanned ttl now o
scanned_lem ttl now none kept h = h
scanned_lem ttl now (some r) kept h = ground (arith, is_overdue_lem ttl now r)

module _ {C B : Type 0} where
  time_out-requests :
      (d : Deps C B) (ttl : Duration) (r : Request) (now : Time) (s : FeedingService C B)
      → is_overdue ttl now r ≡ true
      → (time_out d r now s).requests ≡ insert r.id (timed_out r now) s.requests
  unfolding time_out give_back
  time_out-requests d ttl r now s h =
      let r' = record r { reject_reason = "timeout" } in
      let s1 = (advance r' failed "timeout" now s).1 in
      let receipt = receipt_of r.id s1 in
      let t = record s1 { receipts = erase r.id s1.receipts } in
      let moved : s1.requests ≡ insert r.id (timed_out r now) s.requests =
        ap (λ (q : Request × FeedingService C B). q.1.requests)
          (advance_ok r' failed failed "timeout" now s (fails_allowed ttl now r h)) in
      let taken : (time_out d r now s).requests ≡ s1.requests = elim (Bool-cases (receipt == "")) [
        | inl e ↦ ap (λ (x : FeedingService C B). x.requests) (if_true (receipt == "") s1 _ e)
        | inr e ↦
            ap (λ (x : FeedingService C B). x.requests) (if_false (receipt == "") s1 _ e)
            ∙ (give_back_core d receipt t).0
      ] in
      taken ∙ moved

  scan_rows :
      (d : Deps C B) (ttl : Duration) (now : Time) (rows : Dict Request) (s : FeedingService C B)
      (k : String)
      → IsKeyed rows
      → lookup k (scan d ttl now rows s).1.requests ≡ elim (lookup k rows) [
        | none ↦ lookup k s.requests
        | some r ↦ if is_overdue ttl now r then some (timed_out r now) else lookup k s.requests
      ]
  unfolding scan lookup
  scan_rows d ttl now [] s k v = refl
  scan_rows d ttl now ((j, r) ∷ rows) s k (e, new, v) = elim (Bool-cases (is_overdue ttl now r)) [
    | inl late ↦
        let s' = time_out d r now s in
        let stored : lookup k s'.requests
            ≡ (if j == k then some (timed_out r now) else lookup k s.requests) =
          ap (lookup k) (time_out-requests d ttl r now s late)
          ∙ lookup-insert r.id k (timed_out r now) s.requests
          ∙ ap (λ x. if x == k then some (timed_out r now) else lookup k s.requests) e in
        ground (arith, late, stored, new, eq_iff j k, scan_rows d ttl now rows s' k v)
    | inr early ↦ ground (arith, early, new, eq_iff j k, scan_rows d ttl now rows s k v)
  ]

  scan_counts :
      (d : Deps C B) (ttl : Duration) (now : Time) (rows : Dict Request) (s : FeedingService C B)
      → (scan d ttl now rows s).0 ≡ overdue_count ttl now rows
  unfolding scan
  scan_counts d ttl now [] s = refl
  scan_counts d ttl now ((j, r) ∷ rows) s = ground (
    arith,
    is_overdue_lem ttl now r,
    scan_counts d ttl now rows s,
    scan_counts d ttl now rows (time_out d r now s),
  )

  -- A run with a positive limit fails every request that is queued or dispatched and was last
  -- changed at least the limit ago, with the reason "timeout", leaves every other request as it is,
  -- and returns the number of those it failed, if every request is stored once and under its number.
  pub timeout_scan_run-scanned :
      (d : Deps C B) (ttl : Duration) (now : Time) (s : FeedingService C B) (k : String)
      → IsKeyed s.requests
      → leb_ℤ ttl (pos 0) ≡ false
      → let (n, t) = timeout_scan_run d ttl now s in
        (lookup k t.requests ≡ scanned ttl now (lookup k s.requests))
        × (n ≡ overdue_count ttl now s.requests)
  unfolding timeout_scan_run
  timeout_scan_run-scanned d ttl now s k v h =
      rw (h, timeout_scan_run)
        (
          scan_rows d ttl now s.requests s k v ∙ scanned_lem ttl now (lookup k s.requests) _ refl,
          scan_counts d ttl now s.requests s,
        )
