-- ===== src/BillingService/Wallet.antt =====
-- The wallet calls of the billing service keep the wallets in balance.
use yunmao.Base.{
  ℕ, ◌*◌, ◌<◌, ◌≡◌, refl, sym, String, Bool, true, false, none, if◌then◌else◌, arith, pos, ◌≤ℤ◌,
  mul64, wrap64, two32, lookup, Time,
}
use mathlib.Core.Path.{subst}
use yunmao.Errors.{AppError}
use yunmao.BillingStore.{
  MemoryStore, Result, ok, err, reserve_hold, confirm_hold, cancel_hold, top_up_wallet,
}
use yunmao.BillingStore
use yunmao.BillingStore.Invariant.{Inv}
use yunmao.BillingStore.Steps.{reserve_hold-Inv, confirm_hold-Inv, cancel_hold-Inv}
use yunmao.BillingStore.Conservation.{
  paid_in, reserve_hold-paid_in, confirm_hold-paid_in, cancel_hold-paid_in,
}
use yunmao.BillingService.{
  WalletReserveInput, Reply, answer, reserve, confirm, cancel, new_hold, convert_grams_to_fen,
  reserve_error, wallet_hold_external, hold_error,
}

answer-store :
    {A D : Type 0} (report : BillingStore.Error → AppError) (show : A → D) (r : Result A)
    (s : MemoryStore)
    → (answer report show (r, s)).1 ≡ s
answer-store report show (ok a) s = refl
answer-store report show (err e) s = refl

-- Five fen for each of a uint32 of grams, with no overflow.
convert_grams_exact : (grams : ℕ) → grams < two32 → convert_grams_to_fen grams ≡ pos (grams * 5)
unfolding convert_grams_to_fen mul64 wrap64
convert_grams_exact grams h = ground arith

-- The wallets are in balance after a call, and it moved no money of a user.
abbrev pub Keeps : String → MemoryStore → MemoryStore → Type 0
Keeps user s t = Inv t × (paid_in user t ≡ paid_in user s)

guarded :
    {A : Type 0} (user : String) (s : MemoryStore) (guard : Bool) (refused asked : Reply A)
    → Keeps user s refused.1
    → Keeps user s asked.1
    → Keeps user s (if guard then refused else asked).1
guarded user s true refused asked a b = a
guarded user s false refused asked a b = b

-- A reservation through the service leaves the wallets in balance and moves no money, if the new
-- hold's number is new and the grams are a uint32.
pub reserve-Keeps :
    (input : WalletReserveInput) (id : String) (now opened later : Time) (s : MemoryStore)
    (user : String)
    → Inv s
    → lookup id s.holds ≡ none
    → input.amount_grams < two32
    → Keeps user s (reserve input id now opened later s).1
unfolding reserve new_hold
reserve-Keeps input id now opened later s user v fresh small =
    let h = new_hold input id now in
    let p = reserve_hold s h opened later in
    let amount : pos 0 ≤ℤ convert_grams_to_fen input.amount_grams =
      rw (convert_grams_exact input.amount_grams small) (omega arith) in
    guarded user s _ _ (answer reserve_error wallet_hold_external p) (v, refl)
      (subst (Keeps user s) (sym (answer-store reserve_error wallet_hold_external p.0 p.1)) (
        reserve_hold-Inv s h opened later v fresh amount refl,
        reserve_hold-paid_in s h opened later user v fresh refl,
      ))

-- So does a confirmation: what it takes from the balance is spent on the hold.
pub confirm-Keeps :
    (id : String) (now opened : Time) (s : MemoryStore) (user : String)
    → Inv s
    → Keeps user s (confirm id now opened s).1
unfolding confirm
confirm-Keeps id now opened s user v =
    let p = confirm_hold s id now opened in
    guarded user s _ _ (answer (hold_error "confirm: ") wallet_hold_external p) (v, refl)
      (subst (Keeps user s)
        (sym (answer-store (hold_error "confirm: ") wallet_hold_external p.0 p.1))
        (confirm_hold-Inv s id now opened v, confirm_hold-paid_in s id now opened user v))

-- And a cancellation.
pub cancel-Keeps :
    (id : String) (now opened : Time) (s : MemoryStore) (user : String)
    → Inv s
    → Keeps user s (cancel id now opened s).1
unfolding cancel
cancel-Keeps id now opened s user v =
    let p = cancel_hold s id now opened in
    guarded user s _ _ (answer (hold_error "cancel: ") wallet_hold_external p) (v, refl)
      (subst (Keeps user s)
        (sym (answer-store (hold_error "cancel: ") wallet_hold_external p.0 p.1))
        (cancel_hold-Inv s id now opened v, cancel_hold-paid_in s id now opened user v))
