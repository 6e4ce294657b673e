-- ===== src/BillingService/Tests.antt =====
-- Tests of the billing service, and its theorems at concrete inputs.
use yunmao.Base.{◌≡◌, refl, none, [], arith, pos, ◌+ℤ◌, lookup, sub64, mul64, fails}
use yunmao.Errors.{pay_channel_failed}
use yunmao.BillingStore.{MemoryStore, new_memory_store, ensure_wallet, top_up_wallet}
use yunmao.BillingStore.Steps.{top_up_wallet-Inv}
use yunmao.BillingStore.Invariant.{Inv, new_memory_store-Inv}
use yunmao.BillingService.{WalletReserveInput, reserve}
use yunmao.BillingService.Wallet.{Keeps, reserve-Keeps}

abbrev input : WalletReserveInput
input = record {
  user_id = "u";
  room_id = "room_demo";
  cat_id = "cat_demo";
  feed_request_id = "";
  idempotency_key = "k";
  amount_grams = 5;
  ttl_seconds = pos 0;
}

abbrev empty : MemoryStore
empty = record { m = []; wallets = []; holds = []; holds_idx = [] }

-- Nobody can reserve without funds.
reserve_short :
    (reserve input "hold_1" 1 1 1 empty).0
    ≡ fails (record {
      code = pay_channel_failed;
      message = "insufficient funds";
      remediation = "";
      trace_id = "";
    })
unfolding reserve lookup sub64 ensure_wallet mul64
reserve_short = refl

abbrev funded : MemoryStore
funded = top_up_wallet new_memory_store "u" (pos 100) 1 1

funded-Inv : Inv funded
unfolding new_memory_store lookup ◌+ℤ◌
funded-Inv =
    top_up_wallet-Inv new_memory_store "u" (pos 100) 1 1 new_memory_store-Inv (omega arith)
      (omega arith)

nothing_held : lookup "hold_1" (funded).holds ≡ none
unfolding new_memory_store lookup top_up_wallet ensure_wallet
nothing_held = refl

reserve-Keeps_example : Keeps "u" funded (reserve input "hold_1" 2 2 2 funded).1
reserve-Keeps_example =
    reserve-Keeps input "hold_1" 2 2 2 funded "u" funded-Inv nothing_held (omega arith)

-- The wallet with 25 fen reserved.
abbrev holding : MemoryStore
holding = (reserve input "hold_1" 2 2 2 funded).1

holding-Inv : Inv holding
holding-Inv =
    (reserve-Keeps input "hold_1" 2 2 2 funded "u" funded-Inv nothing_held (omega arith)).0
