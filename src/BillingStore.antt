-- ===== src/BillingStore.antt =====
-- The in-process store of billing-svc, go/services/billing-svc/internal/store/store.go
-- (memoryStore): orders, wallets and the holds of the wallet saga. It discards the outbox events
-- that its methods are given, so they are no arguments here. A method returns its result and the
-- store after it; what it reads from the clock is an argument.
pub mod Sums
pub mod Invariant
pub mod Amounts
pub mod Release
pub mod Steps
pub mod Conservation
pub mod Fates
pub mod Saga
pub mod Orders
mod Tests
use yunmao.Base.{
  ℕ, String, append, Bool, true, false, Option, none, some, if◌then◌else◌, ℤ, pos, ltb_ℤ, add64,
  sub64, Dict, [], lookup, insert, Time,
}

pub data OrderStatus : Type 0 where
  created paid refunded : OrderStatus

pub record Order : Type 0 where
  pub id : String
  pub user_id : String
  pub channel : String
  pub biz_type : String
  pub amount_cny : ℕ  -- uint32
  pub status : OrderStatus
  pub idempotency_key : String
  pub region_id : String
  pub created_at : Time
  pub updated_at : Time
  pub paid_at : Time
  pub refunded_at : Time

pub record WalletBalance : Type 0 where
  pub user_id : String
  pub balance_fen : ℤ  -- int64
  pub reserved_fen : ℤ  -- int64
  pub region_id : String
  pub updated_at : Time

pub data HoldStatus : Type 0 where
  reserved confirmed cancelled expired : HoldStatus

pub record WalletHold : Type 0 where
  pub id : String
  pub user_id : String
  pub room_id : String
  pub cat_id : String
  pub amount_fen : ℤ  -- int64
  pub amount_grams : ℕ  -- uint32
  pub idempotency_key : String
  pub status : HoldStatus
  pub feed_request_id : String
  pub region_id : String
  pub created_at : Time
  pub updated_at : Time
  pub expires_at : Time

-- `panics` is the dereference of a nil pointer.
pub data Error : Type 0 where
  duplicate_order not_found already_paid insufficient already_terminal panics : Error

pub data Result (A : Type 0) : Type 0 where
  ok : A → Result A
  err : Error → Result A

pub record MemoryStore : Type 0 where
  pub m : Dict Order
  pub wallets : Dict WalletBalance
  pub holds : Dict WalletHold
  pub holds_idx : Dict String

unfoldable pub new_memory_store : MemoryStore
new_memory_store = record { m = []; wallets = []; holds = []; holds_idx = [] }

unfoldable pub create_order : MemoryStore → Order → Result (Unit {0}) × MemoryStore
create_order s o = elim (lookup o.id s.m) [
  | some _ ↦ (err duplicate_order, s)
  | none ↦ (ok tt, record s { m = insert o.id o s.m })
]

-- The second half of MarkPaid, on the order that was found.
unfoldable pub pay_order :
    MemoryStore → String → Time → Order → OrderStatus → Result Order × MemoryStore
pay_order s id t o paid = (err already_paid, s)
pay_order s id t o _ =
    let o' = record o { status = paid; paid_at = t; updated_at = t } in
    (ok o', record s { m = insert id o' s.m })

unfoldable pub mark_paid : MemoryStore → String → Time → Result Order × MemoryStore
unfolding pay_order
mark_paid s id t = elim (lookup id s.m) [
  | none ↦ (err not_found, s)
  | some o ↦ pay_order s id t o o.status
]

unfoldable pub refund : MemoryStore → String → Time → Result Order × MemoryStore
refund s id t = elim (lookup id s.m) [
  | none ↦ (err not_found, s)
  | some o ↦
      let o' = record o { status = refunded; refunded_at = t; updated_at = t } in
      (ok o', record s { m = insert id o' s.m })
]

-- The read of a map, with the error for a missing key: GetOrder, GetHold and GetWallet.
abbrev or_not_found : {A : Type 0} → Option A → Result A
or_not_found none = err not_found
or_not_found (some a) = ok a

unfoldable pub get_order : MemoryStore → String → Result Order
get_order s id = or_not_found (lookup id s.m)

unfoldable pub get_hold : MemoryStore → String → Result WalletHold
get_hold s id = or_not_found (lookup id s.holds)

unfoldable pub get_wallet : MemoryStore → String → Result WalletBalance
get_wallet s user = or_not_found (lookup user s.wallets)

unfoldable pub empty_wallet : String → String → Time → WalletBalance
empty_wallet user region now = record {
  user_id = user;
  balance_fen = pos 0;
  reserved_fen = pos 0;
  region_id = region;
  updated_at = now;
}

-- `ensureWallet`: the user's wallet, a new empty one if there is none. Its callers write through
-- the pointer that it returns: they store the changed wallet over the one that this stores.
unfoldable pub ensure_wallet : MemoryStore → String → String → Time → WalletBalance × MemoryStore
unfolding empty_wallet
ensure_wallet s user region now = elim (lookup user s.wallets) [
  | some w ↦ (w, s)
  | none ↦ (
    empty_wallet user region now,
    record s { wallets = insert user (empty_wallet user region now) s.wallets },
  )
]

-- `h.UserID + "|" + h.IdempotencyKey`
unfoldable pub hold_key : WalletHold → String
hold_key h = append h.user_id (append "|" h.idempotency_key)

-- ReserveHold once the key is new, on the wallet that ensureWallet returned.
unfoldable pub reserve_new :
    MemoryStore → WalletHold → Time → WalletBalance → Result WalletHold × MemoryStore
reserve_new s h now w =
    if ltb_ℤ (sub64 w.balance_fen w.reserved_fen) h.amount_fen then (err insufficient, s) else (
      ok h,
      record s {
        wallets =
            insert h.user_id
              (record w { reserved_fen = add64 w.reserved_fen h.amount_fen; updated_at = now })
              s.wallets;
        holds = insert h.id h s.holds;
        holds_idx = insert (hold_key h) h.id s.holds_idx;
      },
    )

-- `opened` is the clock in ensureWallet, `now` the later one.
unfoldable pub reserve_hold :
    MemoryStore → WalletHold → Time → Time → Result WalletHold × MemoryStore
unfolding reserve_new
reserve_hold s h opened now = elim (lookup (hold_key h) s.holds_idx) [
  | some existing ↦ elim (lookup existing s.holds) [
    | some held ↦ (ok held, s)
    | none ↦ (err panics, s)
  ]
  | none ↦ let (w, s') = ensure_wallet s h.user_id h.region_id opened in reserve_new s' h now w
]

-- ConfirmHold on the hold that was found, by its status.
unfoldable pub confirm_found :
    MemoryStore → String → Time → Time → WalletHold → HoldStatus → Result WalletHold × MemoryStore
confirm_found s id at now h confirmed = (ok h, s)
confirm_found s id at now h reserved =
    let (w, s') = ensure_wallet s h.user_id h.region_id now in
    let h' = record h { status = confirmed; updated_at = at } in
    (
      ok h',
      record s' {
        wallets =
            insert h.user_id
              (record w {
                balance_fen = sub64 w.balance_fen h.amount_fen;
                reserved_fen = sub64 w.reserved_fen h.amount_fen;
                updated_at = at;
              })
              s'.wallets;
        holds = insert id h' s'.holds;
      },
    )
confirm_found s id at now h _ = (err already_terminal, s)

unfoldable pub confirm_hold : MemoryStore → String → Time → Time → Result WalletHold × MemoryStore
unfolding confirm_found
confirm_hold s id at now = elim (lookup id s.holds) [
  | none ↦ (err not_found, s)
  | some h ↦ confirm_found s id at now h h.status
]

-- CancelHold on the hold that was found, by its status.
unfoldable pub cancel_found :
    MemoryStore → String → Time → Time → WalletHold → HoldStatus → Result WalletHold × MemoryStore
cancel_found s id at now h cancelled = (ok h, s)
cancel_found s id at now h reserved =
    let (w, s') = ensure_wallet s h.user_id h.region_id now in
    let h' = record h { status = cancelled; updated_at = at } in
    (
      ok h',
      record s' {
        wallets =
            insert h.user_id
              (record w { reserved_fen = sub64 w.reserved_fen h.amount_fen; updated_at = at })
              s'.wallets;
        holds = insert id h' s'.holds;
      },
    )
cancel_found s id at now h _ = (err already_terminal, s)

unfoldable pub cancel_hold : MemoryStore → String → Time → Time → Result WalletHold × MemoryStore
unfolding cancel_found
cancel_hold s id at now = elim (lookup id s.holds) [
  | none ↦ (err not_found, s)
  | some h ↦ cancel_found s id at now h h.status
]

unfoldable pub top_up_wallet : MemoryStore → String → ℤ → Time → Time → MemoryStore
top_up_wallet s user amount opened now =
    let (w, s') = ensure_wallet s user "global" opened in
    record s' {
      wallets =
          insert user (record w { balance_fen = add64 w.balance_fen amount; updated_at = now })
            s'.wallets;
    }
