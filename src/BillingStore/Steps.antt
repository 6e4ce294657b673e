-- ===== src/BillingStore/Steps.antt =====
-- Every wallet operation keeps the wallet invariant.
use yunmao.Base.{
  ◌<◌, String, ◌≡◌, refl, ◌∙◌, none, some, arith, Bool-cases, Option-cases, inl, inr, ℤ, pos,
  pos_part, ◌+ℤ◌, ◌≤ℤ◌, ltb_ℤ, int_laws, two63, add64, sub64, lookup, insert, lookup-insert_self,
  lookup-insert_ne, Time,
}
use yunmao.BillingStore.{
  WalletHold, WalletBalance, HoldStatus, reserved, confirmed, cancelled, expired, MemoryStore,
  ensure_wallet, reserve_new, reserve_hold, confirm_found, confirm_hold, cancel_found, cancel_hold,
  top_up_wallet, hold_key,
}
use yunmao.BillingStore.Sums.{held, sum-insert_new, sum-insert_new_other, counted_self}
use yunmao.BillingStore.Invariant.{Inv, IsSolvent, balance_of, ensure_wallet-Inv, keep, store-Inv}
use yunmao.BillingStore.Amounts.{reserve_arith, top_up_exact}
use yunmao.BillingStore.Release.{release-Inv}

reserve_new-Inv :
    (s : MemoryStore) (h : WalletHold) (now : Time) (w : WalletBalance)
    → Inv s
    → lookup h.user_id s.wallets ≡ some w
    → lookup h.id s.holds ≡ none
    → pos 0 ≤ℤ h.amount_fen
    → h.status ≡ reserved
    → Inv (reserve_new s h now w).1
unfolding reserve_new
reserve_new-Inv s h now w v found fresh n st =
    elim (Bool-cases (ltb_ℤ (sub64 w.balance_fen w.reserved_fen) h.amount_fen)) [
      | inl short ↦ rw short v
      | inr fits ↦
          let sol : IsSolvent (some w) = rw found at (v.solvent h.user_id) in
          let (exact, bound) =
            reserve_arith w.balance_fen w.reserved_fen h.amount_fen sol.0 sol.1 sol.2 n fits in
          let before : held h.user_id s.holds ≡ w.reserved_fen = rw found at (v.locked h.user_id) in
          rw fits (
            store-Inv s h.user_id h.id _ h _ v
              (λ other ne. sum-insert_new_other other reserved h.id h s.holds ne fresh)
              (sum-insert_new h.user_id reserved h.id h s.holds fresh
                ∙ rw (counted_self h st, before, exact))
              (rw exact (omega (int_laws, sol, bound, n))) n)
    ]

-- Reserving keeps the invariant, if the hold's number is new, as ids.New makes it, its amount is not
-- negative and its status is reserved.
pub reserve_hold-Inv :
    (s : MemoryStore) (h : WalletHold) (opened now : Time)
    → Inv s
    → lookup h.id s.holds ≡ none
    → pos 0 ≤ℤ h.amount_fen
    → h.status ≡ reserved
    → Inv (reserve_hold s h opened now).1
unfolding reserve_hold
reserve_hold-Inv s h opened now v fresh n st =
    elim (Option-cases (lookup (hold_key h) s.holds_idx)) [
      | inl new ↦
          let (w, s') = ensure_wallet s h.user_id h.region_id opened in
          let (v', wallet, same, _) = ensure_wallet-Inv s h.user_id h.region_id opened v in
          rw (new, reserve_hold) (reserve_new-Inv s' h now w v' wallet (rw same fresh) n st)
      | inr (existing, old) ↦ elim (Option-cases (lookup existing s.holds)) [
        | inl dangling ↦ rw (old, dangling, reserve_hold) v
        | inr (x, held) ↦ rw (old, held, reserve_hold) v
      ]
    ]

confirm_found-Inv :
    (s : MemoryStore) (id : String) (at now : Time) (h : WalletHold) (st : HoldStatus)
    → Inv s
    → lookup id s.holds ≡ some h
    → h.status ≡ st
    → Inv (confirm_found s id at now h st).1
unfolding confirm_found
confirm_found-Inv s id at now h confirmed v found e = v
confirm_found-Inv s id at now h cancelled v found e = v
confirm_found-Inv s id at now h expired v found e = v
confirm_found-Inv s id at now h reserved v found e =
    let (w, s') = ensure_wallet s h.user_id h.region_id now in
    let (v', wallet, same, _) = ensure_wallet-Inv s h.user_id h.region_id now v in
    release-Inv s' id h w v' (rw same found) e wallet _ _ refl refl (ground arith) refl (inr refl)

cancel_found-Inv :
    (s : MemoryStore) (id : String) (at now : Time) (h : WalletHold) (st : HoldStatus)
    → Inv s
    → lookup id s.holds ≡ some h
    → h.status ≡ st
    → Inv (cancel_found s id at now h st).1
unfolding cancel_found
cancel_found-Inv s id at now h confirmed v found e = v
cancel_found-Inv s id at now h cancelled v found e = v
cancel_found-Inv s id at now h expired v found e = v
cancel_found-Inv s id at now h reserved v found e =
    let (w, s') = ensure_wallet s h.user_id h.region_id now in
    let (v', wallet, same, _) = ensure_wallet-Inv s h.user_id h.region_id now v in
    release-Inv s' id h w v' (rw same found) e wallet _ _ refl refl (ground arith) refl (inl refl)

-- Confirming keeps the invariant: whatever the hold's number and status are.
pub confirm_hold-Inv :
    (s : MemoryStore) (id : String) (at now : Time) → Inv s → Inv (confirm_hold s id at now).1
unfolding confirm_hold
confirm_hold-Inv s id at now v = elim (Option-cases (lookup id s.holds)) [
  | inl gone ↦ rw (gone, confirm_hold) v
  | inr (h, found) ↦
      rw (found, confirm_hold) (confirm_found-Inv s id at now h h.status v found refl)
]

-- Cancelling keeps the invariant, likewise.
pub cancel_hold-Inv :
    (s : MemoryStore) (id : String) (at now : Time) → Inv s → Inv (cancel_hold s id at now).1
unfolding cancel_hold
cancel_hold-Inv s id at now v = elim (Option-cases (lookup id s.holds)) [
  | inl gone ↦ rw (gone, cancel_hold) v
  | inr (h, found) ↦ rw (found, cancel_hold) (cancel_found-Inv s id at now h h.status v found refl)
]

-- A top-up that is not negative and does not run past an int64 keeps the invariant.
pub top_up_wallet-Inv :
    (s : MemoryStore) (user : String) (amount : ℤ) (opened now : Time)
    → Inv s
    → pos 0 ≤ℤ amount
    → pos_part (balance_of (lookup user s.wallets) +ℤ amount) < two63
    → Inv (top_up_wallet s user amount opened now)
unfolding top_up_wallet
top_up_wallet-Inv s user amount opened now v n room =
    let (w, s') = ensure_wallet s user "global" opened in
    let (v', wallet, same, balance) = ensure_wallet-Inv s user "global" opened v in
    let sol : IsSolvent (some w) = rw wallet at (v'.solvent user) in
    let own : held user s'.holds ≡ w.reserved_fen = rw wallet at (v'.locked user) in
    let fits : pos_part (w.balance_fen +ℤ amount) < two63 = rw balance room in
    let exact : add64 w.balance_fen amount ≡ w.balance_fen +ℤ amount =
      top_up_exact w.balance_fen w.reserved_fen amount n sol fits in
    let w' : WalletBalance = record w {
      balance_fen = add64 w.balance_fen amount;
      updated_at = now;
    } in
    let found = lookup-insert_self user w' s'.wallets in
    keep s' (record s' { wallets = insert user w' s'.wallets }) user v'
      (λ other ne. (lookup-insert_ne user other w' s'.wallets ne, refl)) (rw found own)
      (rw (found, exact) (omega (int_laws, fits, sol, n))) v'.nonneg
