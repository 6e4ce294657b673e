-- ===== src/BillingStore/Tests.antt =====
-- Tests of the billing store, and its theorems at concrete inputs.
use yunmao.Base.{◌≡◌, refl, String, List, [], ◌∷◌, arith, pos, ◌+ℤ◌, add64, sub64, lookup, insert}
use yunmao.BillingStore.{
  Order, OrderStatus, HoldStatus, created, paid, refunded, WalletHold, WalletBalance, reserved,
  confirmed, MemoryStore, ok, err, already_terminal, new_memory_store, ensure_wallet, reserve_hold,
  confirm_hold, cancel_hold, top_up_wallet, hold_key, mark_paid, refund,
}
use yunmao.BillingStore.Sums.{held, spent}
use yunmao.BillingStore.Invariant.{IsSolvent, balance_of, reserved_of}
use yunmao.BillingStore.Saga.{
  Op, reserve, confirm, cancel, top_up, step, run, AllAllowed, deposits, wallets_balance,
}
use yunmao.BillingStore.Fates.{confirm_hold_settles, reserve_hold_again}
use yunmao.BillingStore.Orders.{refund-mark_paid}

abbrev hold : String → String → String → WalletHold
hold id user key = record {
  id = id;
  user_id = user;
  room_id = "room_demo";
  cat_id = "cat_demo";
  amount_fen = pos 25;
  amount_grams = 5;
  idempotency_key = key;
  status = reserved;
  feed_request_id = "";
  region_id = "global";
  created_at = 0;
  updated_at = 0;
  expires_at = 60;
}

abbrev order : String → OrderStatus → Order
order id st = record {
  id = id;
  user_id = "u";
  channel = "manual";
  biz_type = "feed_ticket";
  amount_cny = 9;
  status = st;
  idempotency_key = "";
  region_id = "global";
  created_at = 0;
  updated_at = 0;
  paid_at = 0;
  refunded_at = 0;
}

abbrev ops : List Op
ops =
    top_up "u" (pos 100) 1 1
    ∷ reserve (hold "h1" "u" "k1") 2 2
    ∷ reserve (hold "h2" "u" "k2") 3 3
    ∷ confirm "h1" 4 4
    ∷ cancel "h2" 5 5
    ∷ confirm "h2" 6 6
    ∷ []

ops_allowed : AllAllowed new_memory_store ops
unfolding step new_memory_store ensure_wallet reserve_hold confirm_hold cancel_hold top_up_wallet
    hold_key lookup insert add64 sub64
ops_allowed = ground arith

wallets_balance_example :
    let s = run new_memory_store ops in
    (held "u" s.holds ≡ reserved_of (lookup "u" s.wallets))
    × IsSolvent (lookup "u" s.wallets)
    × (balance_of (lookup "u" s.wallets) +ℤ spent "u" s.holds ≡ deposits "u" ops)
wallets_balance_example = wallets_balance ops "u" ops_allowed

-- 100 fen were topped up, 25 of them spent.
balance_after : balance_of (lookup "u" (run new_memory_store ops).wallets) ≡ pos 75
unfolding run step new_memory_store ensure_wallet reserve_hold confirm_hold cancel_hold
    top_up_wallet hold_key lookup insert add64 sub64
balance_after = refl

-- A store with 100 fen, 25 of them reserved by the hold "h1".
abbrev funded : MemoryStore
funded = record {
  m = ("o1", order "o1" created) ∷ [];
  wallets = ("u", wallet) ∷ [];
  holds = ("h1", hold "h1" "u" "k1") ∷ [];
  holds_idx = ("u|k1", "h1") ∷ [];
}
  where
    wallet : WalletBalance
    wallet = record {
      user_id = "u";
      balance_fen = pos 100;
      reserved_fen = pos 25;
      region_id = "global";
      updated_at = 1;
    }

abbrev settled : HoldStatus → WalletHold
settled st = record (hold "h1" "u" "k1") { status = st; updated_at = 4 }

confirm_hold_settles_example :
    let s = (confirm_hold funded "h1" 4 4).1 in
    (confirm_hold s "h1" 5 5 ≡ (ok (settled confirmed), s))
    × (cancel_hold s "h1" 5 5 ≡ (err already_terminal, s))
unfolding confirm_hold ensure_wallet lookup insert sub64
confirm_hold_settles_example =
    confirm_hold_settles funded (confirm_hold funded "h1" 4 4).1 "h1" 4 4 5 5 (settled confirmed)
      refl

-- The second request asks for another hold with the first one's key.
reserve_hold_again_example :
    let s = (reserve_hold funded (hold "h2" "u" "k2") 2 2).1 in
    reserve_hold s (hold "h3" "u" "k2") 3 3 ≡ (ok (hold "h2" "u" "k2"), s)
unfolding reserve_hold ensure_wallet hold_key lookup insert add64 sub64
reserve_hold_again_example =
    reserve_hold_again funded (reserve_hold funded (hold "h2" "u" "k2") 2 2).1 (hold "h2" "u" "k2")
      (hold "h2" "u" "k2") (hold "h3" "u" "k2") 2 2 3 3 refl refl

abbrev poor : MemoryStore
poor = (top_up_wallet new_memory_store "a|b" (pos 100) 1 1)

refund-mark_paid_example :
    let (r, s) = refund funded "o1" 7 in
    let refunded_order = record (order "o1" created) {
      status = refunded;
      refunded_at = 7;
      updated_at = 7;
    } in
    (r ≡ ok refunded_order)
    × ((mark_paid s "o1" 8).0
        ≡ ok (record refunded_order { status = paid; paid_at = 8; updated_at = 8 }))
unfolding lookup
refund-mark_paid_example = refund-mark_paid funded "o1" 7 8 (order "o1" created) refl
