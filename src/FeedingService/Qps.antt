-- ===== src/FeedingService/Qps.antt =====
-- The limit of requests per second.
use yunmao.Base.{
  ℕ, zero, suc, ◌+◌, ◌≤◌, ◌≡◌, refl, Bool, true, false, List, [], ◌∷◌, arith, ℤ, pos_part,
}
use yunmao.FeedingService.Admission.{bucket_count, set_bucket, drop_old, allow_region_qps}

bucket_count-drop_old :
    (now : ℕ) (rows : List (ℕ × ℕ)) → bucket_count now (drop_old now rows) ≡ bucket_count now rows
unfolding bucket_count drop_old
bucket_count-drop_old now [] = refl
bucket_count-drop_old now ((j, n) ∷ rows) = ground (arith, bucket_count-drop_old now rows)

bucket_count-set_bucket : (k c : ℕ) (rows : List (ℕ × ℕ)) → bucket_count k (set_bucket k c rows) ≡ c
unfolding bucket_count set_bucket
bucket_count-set_bucket k c [] = ground arith
bucket_count-set_bucket k c ((j, n) ∷ rows) = ground (arith, bucket_count-set_bucket k c rows)

-- How many of a number of calls in one second are allowed.
abbrev pub allowed_of : Bool → ℕ
allowed_of true = 1
allowed_of false = 0

unfoldable pub allowed_calls : ℕ → ℕ → ℤ → List (ℕ × ℕ) → ℕ
unfolding allow_region_qps
allowed_calls zero now limit rows = 0
allowed_calls (suc n) now limit rows =
    let (ok, rows') = allow_region_qps now limit rows in
    allowed_of ok + allowed_calls n now limit rows'

allow_counts :
    (now : ℕ) (limit : ℤ) (rows : List (ℕ × ℕ))
    → let (ok, rows') = allow_region_qps now limit rows in
      (bucket_count now rows' ≡ allowed_of ok + bucket_count now rows)
      × (bucket_count now rows ≤ pos_part limit → bucket_count now rows' ≤ pos_part limit)
unfolding allow_region_qps
allow_counts now limit rows =
    let n = suc (bucket_count now (drop_old now rows)) in
    let same = bucket_count-drop_old now rows in
    let stored = bucket_count-set_bucket now n (drop_old now rows) in
    (ground (arith, same, stored), λ h. ground (arith, same, stored))

-- Of any number of calls in one second at most the limit are allowed, those counted before
-- included, if no more than the limit were counted before.
pub allowed_calls-allow_region_qps :
    (n now : ℕ) (limit : ℤ) (rows : List (ℕ × ℕ))
    → bucket_count now rows ≤ pos_part limit
    → bucket_count now rows + allowed_calls n now limit rows ≤ pos_part limit
unfolding allowed_calls
allowed_calls-allow_region_qps zero now limit rows h = omega arith
allowed_calls-allow_region_qps (suc n) now limit rows h =
    let (ok, rows') = allow_region_qps now limit rows in
    let (counted, kept) = allow_counts now limit rows in
    omega (arith, allowed_calls-allow_region_qps n now limit rows' (kept h), counted)
