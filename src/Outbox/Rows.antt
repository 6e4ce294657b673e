-- ===== src/Outbox/Rows.antt =====
-- The rows of the outbox under publishing, deleting and fetching.
use yunmao.Base.{
  not, ◌&&◌, ℕ, zero, suc, ◌≡◌, refl, Bool, true, false, ◌||◌, nat_eq, List, [], ◌∷◌, arith, ap,
}
use yunmao.Outbox.{OutboxRow, delete_row, has_id, mark_published, row_ids, fetch_at_most}

-- An unpublished row has the number.
unfoldable pub is_pending : ℕ → List OutboxRow → Bool
is_pending n [] = false
is_pending n (r ∷ rows) = nat_eq r.id n && not r.published || is_pending n rows

pub pending-delete_row_self :
    (n : ℕ) (rows : List OutboxRow) → is_pending n (delete_row n rows) ≡ false
unfolding is_pending delete_row
pending-delete_row_self n [] = refl
pending-delete_row_self n (r ∷ rows) = ground (arith, pending-delete_row_self n rows)

pub pending-delete_row :
    (n m : ℕ) (rows : List OutboxRow)
    → is_pending n rows ≡ false
    → is_pending n (delete_row m rows) ≡ false
unfolding is_pending delete_row
pending-delete_row n m [] h = h
pending-delete_row n m (r ∷ rows) h = ground (arith, pending-delete_row n m rows)

pub pending-mark_published :
    (n : ℕ) (ids : List ℕ) (rows : List OutboxRow)
    → (has_id n ids || not (is_pending n rows)) ≡ true
    → is_pending n (mark_published ids rows) ≡ false
unfolding is_pending mark_published
pending-mark_published n ids [] h = refl
pending-mark_published n ids (r ∷ rows) h =
    ground (arith, pending-mark_published n ids rows, ap (λ i. has_id i ids))

-- A published row has the number.
unfoldable pub is_published : ℕ → List OutboxRow → Bool
is_published n [] = false
is_published n (r ∷ rows) = nat_eq r.id n && r.published || is_published n rows

pub published-mark_published :
    (n : ℕ) (ids : List ℕ) (rows : List OutboxRow)
    → has_id n ids ≡ true
    → has_id n (row_ids rows) ≡ true
    → is_published n (mark_published ids rows) ≡ true
unfolding is_published mark_published has_id row_ids
published-mark_published n ids [] h found = absurd (ground arith)
published-mark_published n ids (r ∷ rows) h found =
    ground (arith, published-mark_published n ids rows, ap (λ i. has_id i ids))

pub row_ids-mark_published :
    (ids : List ℕ) (rows : List OutboxRow) → row_ids (mark_published ids rows) ≡ row_ids rows
unfolding mark_published row_ids
row_ids-mark_published ids [] = refl
row_ids-mark_published ids (r ∷ rows) = ground (arith, row_ids-mark_published ids rows)

-- Deleting a row takes its own number only.
pub row_ids-delete_row :
    (n m : ℕ) (rows : List OutboxRow)
    → has_id n (row_ids rows) ≡ true
    → (nat_eq m n || has_id n (row_ids (delete_row m rows))) ≡ true
unfolding has_id row_ids delete_row
row_ids-delete_row n m [] h = absurd (ground arith)
row_ids-delete_row n m (r ∷ rows) h = ground (arith, row_ids-delete_row n m rows)

-- What is fetched is in the table.
pub row_ids-fetch_at_most :
    (n : ℕ) (locked : ℕ → Bool) (batch : ℕ) (rows : List OutboxRow)
    → has_id n (row_ids (fetch_at_most locked batch rows)) ≡ true
    → has_id n (row_ids rows) ≡ true
unfolding has_id row_ids fetch_at_most
row_ids-fetch_at_most n locked zero rows h = absurd (ground arith)
row_ids-fetch_at_most n locked (suc batch) [] h = h
row_ids-fetch_at_most n locked (suc batch) (r ∷ rows) h = ground (
  arith,
  row_ids-fetch_at_most n locked batch rows,
  row_ids-fetch_at_most n locked (suc batch) rows,
)
