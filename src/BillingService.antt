-- ===== src/BillingService.antt =====
-- The billing service over the in-process store, go/services/billing-svc/internal/service: the wallet
-- (wallet.go); its child Orders has the orders (service.go). The store's events are no part of the model; what is
-- read from the clock and from ids.New is an argument. An error of the store that has no case of
-- its own is reported by its text.
pub mod Wallet
pub mod Orders
mod Tests
use yunmao.Base.{
  ℕ, ◌*◌, String, append, Bool, ◌||◌, nat_eq, if◌then◌else◌, ℤ, pos, leb_ℤ, mul64, wrap64, Fallible,
  returns, fails, ◌==◌, Time, add_time, second,
}
use yunmao.Errors.{AppError, Code, new, system_internal, pay_order_paid, pay_channel_failed}
use yunmao.BillingStore.{
  MemoryStore, WalletBalance, Result, ok, err, Error, duplicate_order, not_found, already_paid,
  insufficient, already_terminal, panics, create_order, get_order, get_wallet, reserve_hold,
  confirm_hold, cancel_hold, top_up_wallet, empty_wallet,
}
use yunmao.BillingStore

pub record WalletReserveInput : Type 0 where
  pub user_id : String
  pub room_id : String
  pub cat_id : String
  pub feed_request_id : String
  pub idempotency_key : String
  pub amount_grams : ℕ  -- uint32
  pub ttl_seconds : ℤ

-- The hold as the service shows it.
pub record WalletHold : Type 0 where
  pub id : String
  pub user_id : String
  pub room_id : String
  pub cat_id : String
  pub amount_fen : ℤ  -- int64
  pub amount_grams : ℕ  -- uint32
  pub status : BillingStore.HoldStatus
  pub feed_request_id : String
  pub created_at : Time
  pub expires_at : Time

unfoldable pub wallet_hold_external : BillingStore.WalletHold → WalletHold
wallet_hold_external h = record {
  id = h.id;
  user_id = h.user_id;
  room_id = h.room_id;
  cat_id = h.cat_id;
  amount_fen = h.amount_fen;
  amount_grams = h.amount_grams;
  status = h.status;
  feed_request_id = h.feed_request_id;
  created_at = h.created_at;
  expires_at = h.expires_at;
}

-- Five fen for a gram.
unfoldable pub convert_grams_to_fen : ℕ → ℤ
convert_grams_to_fen grams = mul64 (pos grams) 5

-- The text of an error of the store. A panic has none: it does not come back.
unfoldable pub error_text : Error → String
error_text duplicate_order = "duplicate order id"
error_text not_found = "billing store: order not found"
error_text already_paid = "billing store: order already paid"
error_text insufficient = "billing store: insufficient funds"
error_text already_terminal = "billing store: hold already terminal"
error_text panics = "panic"

abbrev pub Reply : Type 0 → Type 0
Reply A = Fallible AppError A × MemoryStore

-- The answer of the store as the service reports it.
abbrev pub answer : {A D : Type 0} → (Error → AppError) → (A → D) → Result A × MemoryStore → Reply D
answer report show (ok a, s) = (returns (show a), s)
answer report show (err e, s) = (fails (report e), s)

unfoldable pub reserve_error : Error → AppError
unfolding new error_text
reserve_error insufficient = new pay_channel_failed "insufficient funds"
reserve_error e = new system_internal (append "reserve: " (error_text e))

unfoldable pub hold_error : String → Error → AppError
unfolding new error_text
hold_error what not_found = new system_internal "hold not found"
hold_error what already_terminal = new system_internal "hold already in terminal status"
hold_error what e = new system_internal (append what (error_text e))

unfoldable pub new_hold : WalletReserveInput → String → Time → BillingStore.WalletHold
unfolding convert_grams_to_fen
new_hold input id now =
    let ttl : ℤ = if leb_ℤ input.ttl_seconds (pos 0) then pos 60 else input.ttl_seconds in
    record {
      id = id;
      user_id = input.user_id;
      room_id = input.room_id;
      cat_id = input.cat_id;
      amount_fen = convert_grams_to_fen input.amount_grams;
      amount_grams = input.amount_grams;
      idempotency_key = input.idempotency_key;
      status = BillingStore.reserved;
      feed_request_id = input.feed_request_id;
      region_id = "global";
      created_at = now;
      updated_at = now;
      expires_at = add_time now (mul64 ttl second);
    }

unfoldable pub reserve :
    WalletReserveInput → String → Time → Time → Time → MemoryStore → Reply WalletHold
unfolding new new_hold reserve_error wallet_hold_external reserve_hold
reserve input id now opened later s =
    if input.user_id == "" || input.idempotency_key == "" || nat_eq input.amount_grams 0
    then (fails (new system_internal "missing required field"), s)
    else answer reserve_error wallet_hold_external
        (reserve_hold s (new_hold input id now) opened later)

unfoldable pub confirm : String → Time → Time → MemoryStore → Reply WalletHold
unfolding new hold_error wallet_hold_external confirm_hold
confirm id now opened s =
    if id == ""
    then (fails (new system_internal "hold_id required"), s)
    else answer (hold_error "confirm: ") wallet_hold_external (confirm_hold s id now opened)

unfoldable pub cancel : String → Time → Time → MemoryStore → Reply WalletHold
unfolding new hold_error wallet_hold_external cancel_hold
cancel id now opened s =
    if id == ""
    then (fails (new system_internal "hold_id required"), s)
    else answer (hold_error "cancel: ") wallet_hold_external (cancel_hold s id now opened)

unfoldable pub get_hold : String → MemoryStore → Fallible AppError WalletHold
unfolding wallet_hold_external BillingStore.get_hold new error_text
get_hold id s = elim (BillingStore.get_hold s id) [
  | ok h ↦ returns (wallet_hold_external h)
  | err not_found ↦ fails (new system_internal "hold not found")
  | err e ↦ fails (new system_internal (append "get hold: " (error_text e)))
]

-- `Wallet`: an empty one for a user that has none.
unfoldable pub wallet : String → MemoryStore → Fallible AppError WalletBalance
unfolding new get_wallet error_text
wallet user s =
    if user == ""
    then fails (new system_internal "user_id required")
    else elim (get_wallet s user) [
      | ok w ↦ returns w
      | err not_found ↦ returns (record {
        user_id = user;
        balance_fen = pos 0;
        reserved_fen = pos 0;
        region_id = "";
        updated_at = 0;
      })
      | err e ↦ fails (new system_internal (append "get wallet: " (error_text e)))
    ]

unfoldable pub top_up : String → ℤ → Time → Time → MemoryStore → Reply (Unit {0})
unfolding new top_up_wallet
top_up user amount opened now s =
    if user == "" || leb_ℤ amount (pos 0)
    then (fails (new system_internal "user_id and positive amount required"), s)
    else (returns tt, top_up_wallet s user amount opened now)
