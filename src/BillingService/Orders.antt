-- ===== src/BillingService/Orders.antt =====
-- Orders through the billing service, go/services/billing-svc/internal/service/service.go.
use yunmao.Base.{
  ℕ, String, append, ◌||◌, nat_eq, if◌then◌else◌, Fallible, returns, fails, ◌==◌, Time,
}
use yunmao.Errors.{AppError, new, system_internal, pay_order_paid}
use yunmao.BillingStore.{
  MemoryStore, WalletBalance, Result, ok, err, Error, duplicate_order, not_found, already_paid,
  insufficient, already_terminal, panics, create_order, get_order, get_wallet, reserve_hold,
  confirm_hold, cancel_hold, top_up_wallet, empty_wallet,
}
use yunmao.BillingStore
use yunmao.BillingService.{Reply, answer, error_text}

pub record CreateInput : Type 0 where
  pub user_id : String
  pub channel : String
  pub biz_type : String
  pub amount_cny : ℕ  -- uint32
  pub idempotency_key : String

unfoldable pub new_order : CreateInput → String → Time → BillingStore.Order
new_order input id now = record {
  id = id;
  user_id = input.user_id;
  channel = input.channel;
  biz_type = input.biz_type;
  amount_cny = input.amount_cny;
  status = BillingStore.created;
  idempotency_key = input.idempotency_key;
  region_id = "global";
  created_at = now;
  updated_at = now;
  paid_at = 0;
  refunded_at = 0;
}

unfoldable pub create_error : Error → AppError
unfolding new error_text
create_error e = new system_internal (append "create order: " (error_text e))

unfoldable pub paid_error : Error → AppError
unfolding new error_text
paid_error not_found = new system_internal "order not found"
paid_error already_paid = new pay_order_paid "already paid"
paid_error e = new system_internal (append "mark paid: " (error_text e))

-- The errors of Refund and Get, by their prefix.
unfoldable pub order_error : String → Error → AppError
unfolding new error_text
order_error what not_found = new system_internal "order not found"
order_error what e = new system_internal (append what (error_text e))

-- The order as the service shows it.
pub record Order : Type 0 where
  pub id : String
  pub user_id : String
  pub channel : String
  pub biz_type : String
  pub amount_cny : ℕ  -- uint32
  pub status : BillingStore.OrderStatus
  pub idempotency_key : String
  pub region_id : String
  pub created_at : Time
  pub paid_at : Time
  pub refunded_at : Time

unfoldable pub to_external : BillingStore.Order → Order
to_external o = record {
  id = o.id;
  user_id = o.user_id;
  channel = o.channel;
  biz_type = o.biz_type;
  amount_cny = o.amount_cny;
  status = o.status;
  idempotency_key = o.idempotency_key;
  region_id = o.region_id;
  created_at = o.created_at;
  paid_at = o.paid_at;
  refunded_at = o.refunded_at;
}

unfoldable pub create : CreateInput → String → Time → MemoryStore → Reply Order
unfolding new new_order create_error create_order to_external
create input id now s =
    if input.user_id == ""
      || input.channel == ""
      || input.biz_type == ""
      || nat_eq input.amount_cny 0
    then (fails (new system_internal "missing required field"), s)
    else answer create_error (λ u. to_external (new_order input id now))
        (create_order s (new_order input id now))

unfoldable pub mark_paid : String → Time → MemoryStore → Reply Order
unfolding paid_error BillingStore.mark_paid to_external
mark_paid id now s = answer paid_error to_external (BillingStore.mark_paid s id now)

unfoldable pub refund : String → Time → MemoryStore → Reply Order
unfolding order_error BillingStore.refund to_external
refund id now s = answer (order_error "refund: ") to_external (BillingStore.refund s id now)

unfoldable pub get : String → MemoryStore → Fallible AppError Order
unfolding order_error get_order to_external
get id s = elim (get_order s id) [
  | ok o ↦ returns (to_external o)
  | err e ↦ fails (order_error "get order: " e)
]
