-- ===== src/BillingStore/Saga.antt =====
-- Histories of the wallet saga, and each hold's fate.
use yunmao.Base.{
  ◌<◌, String, ◌≡◌, ◌∙◌, none, List, [], ◌∷◌, if◌then◌else◌, ◌==◌, ℤ, pos, pos_part, ◌+ℤ◌, ◌≤ℤ◌,
  int_laws, two63, lookup, Time,
}
use yunmao.BillingStore.{
  WalletHold, reserved, MemoryStore, reserve_hold, confirm_hold, cancel_hold, top_up_wallet,
  new_memory_store,
}
use yunmao.BillingStore.Sums.{held, spent}
use yunmao.BillingStore.Invariant.{Inv, IsSolvent, balance_of, reserved_of, new_memory_store-Inv}
use yunmao.BillingStore.Steps.{
  reserve_hold-Inv, confirm_hold-Inv, cancel_hold-Inv, top_up_wallet-Inv,
}
use yunmao.BillingStore.Conservation.{
  paid_in, reserve_hold-paid_in, confirm_hold-paid_in, cancel_hold-paid_in, top_up_wallet-paid_in,
}

-- A call of the store, with what it read from the clock.
pub data Op : Type 0 where
  reserve : WalletHold → Time → Time → Op
  confirm cancel : String → Time → Time → Op
  top_up : String → ℤ → Time → Time → Op

unfoldable pub step : MemoryStore → Op → MemoryStore
step s (reserve h opened now) = (reserve_hold s h opened now).1
step s (confirm id at now) = (confirm_hold s id at now).1
step s (cancel id at now) = (cancel_hold s id at now).1
step s (top_up user amount opened now) = top_up_wallet s user amount opened now

unfoldable pub run : MemoryStore → List Op → MemoryStore
run s [] = s
run s (op ∷ ops) = run (step s op) ops

-- What billing-svc's service layer grants of each call: a new hold's number is fresh, its amount
-- is not negative and its status is reserved; a top-up is not negative, and fits.
abbrev pub IsAllowed : MemoryStore → Op → Type 0
IsAllowed s (reserve h opened now) =
    (lookup h.id s.holds ≡ none) × (pos 0 ≤ℤ h.amount_fen) × (h.status ≡ reserved)
IsAllowed s (confirm id at now) = Unit
IsAllowed s (cancel id at now) = Unit
IsAllowed s (top_up user amount opened now) =
    (pos 0 ≤ℤ amount) × (pos_part (balance_of (lookup user s.wallets) +ℤ amount) < two63)

abbrev pub AllAllowed : MemoryStore → List Op → Type 0
AllAllowed s [] = Unit
AllAllowed s (op ∷ ops) = IsAllowed s op × AllAllowed (step s op) ops

-- What a history pays in for a user.
abbrev pub deposit : String → Op → ℤ
deposit user (top_up owner amount opened now) = if owner == user then amount else pos 0
deposit user _ = pos 0

abbrev pub deposits : String → List Op → ℤ
deposits user [] = pos 0
deposits user (op ∷ ops) = deposit user op +ℤ deposits user ops

add_none : (a : ℤ) → a ≡ a +ℤ pos 0
add_none a = omega int_laws

assoc : (a b c : ℤ) → (a +ℤ b) +ℤ c ≡ a +ℤ (b +ℤ c)
assoc a b c = omega int_laws

nothing_yet : (user : String) (a : ℤ) → paid_in user new_memory_store +ℤ a ≡ a
unfolding new_memory_store lookup
nothing_yet user a = omega int_laws

-- Every call keeps the wallet invariant, and moves the user's money by what it deposits.
step_lem :
    (s : MemoryStore) (op : Op) (user : String)
    → Inv s
    → IsAllowed s op
    → Inv (step s op) × (paid_in user (step s op) ≡ paid_in user s +ℤ deposit user op)
unfolding step
step_lem s (reserve h opened now) user v a = (
  reserve_hold-Inv s h opened now v a.0 a.1 a.2,
  reserve_hold-paid_in s h opened now user v a.0 a.2 ∙ add_none (paid_in user s),
)
step_lem s (confirm id at now) user v a = (
  confirm_hold-Inv s id at now v,
  confirm_hold-paid_in s id at now user v ∙ add_none (paid_in user s),
)
step_lem s (cancel id at now) user v a = (
  cancel_hold-Inv s id at now v,
  cancel_hold-paid_in s id at now user v ∙ add_none (paid_in user s),
)
step_lem s (top_up owner amount opened now) user v a = (
  top_up_wallet-Inv s owner amount opened now v a.0 a.1,
  top_up_wallet-paid_in s owner user amount opened now v a.0 a.1,
)

run_lem :
    (s : MemoryStore) (ops : List Op) (user : String)
    → Inv s
    → AllAllowed s ops
    → Inv (run s ops) × (paid_in user (run s ops) ≡ paid_in user s +ℤ deposits user ops)
unfolding run
run_lem s [] user v a = (v, add_none (paid_in user s))
run_lem s (op ∷ ops) user v a =
    let (v', moved) = step_lem s op user v a.0 in
    let (v'', total) = run_lem (step s op) ops user v' a.1 in
    (v'', total ∙ rw moved (assoc (paid_in user s) (deposit user op) (deposits user ops)))

-- After any history of allowed calls, in any order and for any holds, every user's wallet has
-- exactly the user's reserved holds reserved, never more than its balance, and balance and confirmed
-- holds together are exactly what was topped up: no fen is lost, made up or paid twice.
pub wallets_balance :
    (ops : List Op) (user : String)
    → AllAllowed new_memory_store ops
    → let s = run new_memory_store ops in
      (held user s.holds ≡ reserved_of (lookup user s.wallets))
      × IsSolvent (lookup user s.wallets)
      × (balance_of (lookup user s.wallets) +ℤ spent user s.holds ≡ deposits user ops)
wallets_balance ops user a =
    let (v, total) = run_lem new_memory_store ops user new_memory_store-Inv a in
    (v.locked user, v.solvent user, total ∙ nothing_yet user (deposits user ops))
