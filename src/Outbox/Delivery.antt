-- ===== src/Outbox/Delivery.antt =====
-- What a batch of the relay does to the tables.
use mathlib.Core.Path.{subst}
use yunmao.Base.{
  sym, not, ◌&&◌, ℕ, zero, suc, ◌*◌, ◌≤◌, ◌≡◌, refl, Bool, true, false, ◌||◌, if◌then◌else◌, nat_eq,
  List, [], ◌∷◌, length, arith, Bool-cases, inl, inr, Fallible, returns, fails, if_true, if_false,
  ap,
}
use yunmao.Outbox.{
  OutboxRow, Tables, fetch_unpublished, has_id, mark_published, row_ids, mark_dlq, backoff_loop,
  default_backoff, RelayConfig, Faults, publish_with_retry, deliver, finish_batch, process_batch,
}
use yunmao.Outbox.Rows.{
  is_pending, pending-delete_row_self, pending-delete_row, pending-mark_published, is_published,
  published-mark_published, row_ids-mark_published, row_ids-delete_row, row_ids-fetch_at_most,
}

backoff_loop_bound :
    (n d : ℕ) → 100 ≤ d → (d ≤ backoff_loop n d) × (backoff_loop n d ≤ backoff_loop (suc n) d)
unfolding backoff_loop
backoff_loop_bound zero d h = (omega arith, ground arith)
backoff_loop_bound (suc n) d h =
    let ih = backoff_loop_bound n (d * 2) (omega arith) in (ground (arith, ih), ground (arith, ih))

-- The wait before a retry is between 100 ms and 2 s, and a later wait is no shorter.
pub default_backoff_bound :
    (n : ℕ)
    → (100 ≤ default_backoff n)
      × (default_backoff n ≤ 2000)
      × (default_backoff n ≤ default_backoff (suc n))
unfolding default_backoff
default_backoff_bound n =
    let b = backoff_loop_bound n 100 (omega arith) in
    (ground (arith, b), ground (arith, b), ground (arith, b))

no_rows :
    {A : Type 0} (n : ℕ) (rows : List OutboxRow)
    → nat_eq (length rows) 0 ≡ true
    → has_id n (row_ids rows) ≡ true
    → A
unfolding has_id row_ids
no_rows n [] e found = absurd (ground arith)
no_rows n (r ∷ rows) e found = absurd (ground arith)

-- The row was published in the batch, or it is in the dead letters and pending no more.
abbrev is_accounted : ℕ → List ℕ → Tables → Bool
is_accounted n ids t =
    has_id n ids || (has_id n (row_ids t.outbox_dlq) && not (is_pending n t.outbox))

-- The row is in the outbox or in the dead letters.
abbrev pub is_kept : ℕ → Tables → Bool
is_kept n t = has_id n (row_ids t.outbox) || has_id n (row_ids t.outbox_dlq)

module _ {P : Type 0} (publish : OutboxRow → P → Bool × P) where
  abbrev Batch : Type 0
  Batch = Fallible ℕ (List ℕ) × Tables × P

  -- Every row of a list is accounted for, and no dead row came back.
  abbrev Accounted : List OutboxRow → Tables → Batch → Type 0
  Accounted rows t (fails n, t', p') = Unit {0}
  Accounted rows t (returns ids, t', p') =
      (n : ℕ)
      → (has_id n (row_ids rows) ≡ true → is_accounted n ids t' ≡ true)
        × (has_id n (row_ids t.outbox_dlq) ≡ true → has_id n (row_ids t'.outbox_dlq) ≡ true)
        × (is_pending n t.outbox ≡ false → is_pending n t'.outbox ≡ false)
        × (has_id n (row_ids t.outbox) ≡ true → is_kept n t' ≡ true)

  sent_one :
      (row : OutboxRow) (rows : List OutboxRow) (t : Tables) (r : Fallible ℕ (List ℕ)) (t' : Tables)
      (p' : P)
      → Accounted rows t (r, t', p')
      → Accounted
          (row ∷ rows)
          t
          (elim r [ returns ids ↦ returns (row.id ∷ ids) | fails n ↦ fails (suc n) ], t', p')
  unfolding has_id row_ids
  sent_one row rows t (fails n) t' p' h = tt
  sent_one row rows t (returns ids) t' p' h = λ n. (ground (arith, h n), (h n).1, (h n).2, (h n).3)

  dead_one :
      (row : OutboxRow) (rows : List OutboxRow) (t : Tables) (r : Fallible ℕ (List ℕ)) (t' : Tables)
      (p' : P)
      → Accounted rows (mark_dlq row t) (r, t', p')
      → Accounted (row ∷ rows) t (r, t', p')
  unfolding has_id row_ids mark_dlq
  dead_one row rows t (fails n) t' p' h = tt
  dead_one row rows t (returns ids) t' p' h = λ n.
      let self = pending-delete_row_self n t.outbox in
      let other = pending-delete_row n row.id t.outbox in
      let rest = row_ids-delete_row n row.id t.outbox in
      (
        ground (arith, h n, self),
        ground (arith, h n),
        λ e. (h n).2 (other e),
        λ e. ground (arith, h n, rest e),
      )

  failed_one :
      (row : OutboxRow) (rows : List OutboxRow) (t : Tables) (fault : Bool) (p : P) (dead : Batch)
      → Accounted rows (mark_dlq row t) dead
      → Accounted (row ∷ rows) t (if fault then (fails 0, t, p) else dead)
  failed_one row rows t true p dead h = tt
  failed_one row rows t false p (r, t', p') h = dead_one row rows t r t' p' h

  deliver-Accounted :
      (cfg : RelayConfig) (faults : Faults) (rows : List OutboxRow) (t : Tables) (p : P)
      → Accounted rows t (deliver publish cfg faults rows t p)
  unfolding deliver has_id row_ids
  deliver-Accounted cfg faults [] t p =
      λ n. (λ e. absurd (ground arith), λ e. e, λ e. e, λ e. ground arith)
  deliver-Accounted cfg faults (row ∷ rows) t p =
      let (ok, p1) = publish_with_retry publish cfg faults row p in
      let sent = deliver publish cfg faults rows t p1 in
      let dead = deliver publish cfg faults rows (mark_dlq row t) p1 in
      elim (Bool-cases ok) [
        | inl e ↦
            subst (Accounted (row ∷ rows) t) (sym (if_true ok _ _ e))
              (sent_one row rows t sent.0 sent.1 sent.2 (deliver-Accounted cfg faults rows t p1))
        | inr e ↦
            subst (Accounted (row ∷ rows) t)
              (sym (if_false ok _ (if faults.dlq row.id then (fails 0, t, p1) else dead) e))
              (failed_one row rows t (faults.dlq row.id) p1 dead
                (deliver-Accounted cfg faults rows (mark_dlq row t) p1))
      ]

  -- What a batch does to the tables: with an error, nothing. Otherwise a row that it fetched is not
  -- pending any more, but published or in the dead letters, and every row is still in one of the
  -- tables.
  abbrev pub Settles : List OutboxRow → Tables → Fallible ℕ ℕ × Tables × P → Type 0
  Settles rows t (fails n, t', p') = t' ≡ t
  Settles rows t (returns k, t', p') =
      (n : ℕ)
      → (has_id n (row_ids rows) ≡ true
          → (is_pending n t'.outbox ≡ false)
            × ((is_published n t'.outbox || has_id n (row_ids t'.outbox_dlq)) ≡ true))
        × (is_kept n t ≡ true → is_kept n t' ≡ true)

  Fetched : List OutboxRow → Tables → Type 0
  Fetched rows t = (n : ℕ) → has_id n (row_ids rows) ≡ true → has_id n (row_ids t.outbox) ≡ true

  settled :
      (n : ℕ) (ids : List ℕ) (t' : Tables)
      → is_accounted n ids t' ≡ true
      → is_kept n t' ≡ true
      → (is_published n (mark_published ids t'.outbox) || has_id n (row_ids t'.outbox_dlq)) ≡ true
  settled n ids t' accounted kept =
      ground (arith, published-mark_published n ids t'.outbox, accounted, kept)

  finish-Settles :
      (faults : Faults) (rows : List OutboxRow) (t t' : Tables) (r : Fallible ℕ (List ℕ)) (p : P)
      → Fetched rows t
      → Accounted rows t (r, t', p)
      → Settles rows t (finish_batch publish faults t r t' p)
  unfolding finish_batch Fetched
  finish-Settles faults rows t t' (fails n) p fetched h = refl
  finish-Settles faults rows t t' (returns ids) p fetched h =
      let broken = faults.mark && not (nat_eq (length ids) 0) || faults.commit in
      elim (Bool-cases broken) [
        | inl e ↦ subst (Settles rows t) (sym (if_true broken _ _ e)) refl
        | inr e ↦ subst (Settles rows t) (sym (if_false broken (fails 0, t, p) _ e)) (λ n. (
          λ found. (
            pending-mark_published n ids t'.outbox (ground (arith, (h n).0 found)),
            settled n ids t' ((h n).0 found) ((h n).3 (fetched n found)),
          ),
          λ kept. ground (arith, h n, ap (has_id n) (row_ids-mark_published ids t'.outbox)),
        ))
      ]

  -- A batch that ends with an error leaves the tables as they were. Otherwise no row that it fetched
  -- is pending any more: each is marked as published or is in the dead letters; and every row of the
  -- outbox or the dead letters is still in one of the two. A row is known by its number.
  pub process_batch-Settles :
      (cfg : RelayConfig) (faults : Faults) (locked : ℕ → Bool) (t : Tables) (p : P)
      → Settles
          (fetch_unpublished locked cfg.batch_size t.outbox)
          t
          (process_batch publish cfg faults locked t p)
  unfolding process_batch fetch_unpublished Fetched
  process_batch-Settles cfg faults locked t p =
      let rows = fetch_unpublished locked cfg.batch_size t.outbox in
      let (r, t', p') = deliver publish cfg faults rows t p in
      let rest = finish_batch publish faults t r t' p' in
      let size = if nat_eq cfg.batch_size 0 then 64 else cfg.batch_size in
      let fetched : Fetched rows t = λ n. row_ids-fetch_at_most n locked size t.outbox in
      let broken = faults.begin || faults.fetch in
      let idle = if nat_eq (length rows) 0 then (returns 0, t, p) else rest in
      elim (Bool-cases broken) [
        | inl e ↦ subst (Settles rows t) (sym (if_true broken (fails 0, t, p) idle e)) refl
        | inr e ↦
            subst (Settles rows t) (sym (if_false broken (fails 0, t, p) idle e))
              (elim (Bool-cases (nat_eq (length rows) 0)) [
                | inl none_left ↦
                    subst (Settles rows t) (sym (if_true (nat_eq (length rows) 0) _ rest none_left))
                      (λ n. (λ found. no_rows n rows none_left found, λ kept. kept))
                | inr some_left ↦
                    subst (Settles rows t)
                      (sym (if_false (nat_eq (length rows) 0) (returns 0, t, p) rest some_left))
                      (finish-Settles faults rows t t' r p' fetched
                        (deliver-Accounted cfg faults rows t p))
              ])
      ]
