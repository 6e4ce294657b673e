-- ===== src/BillingStore/Release.antt =====
-- The release of a reserved hold, by ConfirmHold or CancelHold.
use mathlib.Core.Path.{subst}
use yunmao.Base.{
  String, ◌≡◌, sym, ◌∙◌, some, inl, inr, pos, ◌-ℤ◌, ◌≤ℤ◌, int_laws, sub64, parts_disjoint,
  sub_of_add, ◌⊎◌, lookup, insert,
}
use yunmao.BillingStore.{WalletHold, WalletBalance, reserved, MemoryStore}
use yunmao.BillingStore.Sums.{
  counted, held, lookup_nonneg, amount-le-held, sum-insert, sum-insert_other, counted_self,
}
use yunmao.BillingStore.Invariant.{Inv, IsSolvent, store-Inv}
use yunmao.BillingStore.Amounts.{release_arith}

-- Cancelling and confirming store the hold with another status and release its amount.
module _ (s : MemoryStore) (id : String) (h : WalletHold) (w : WalletBalance) (v : Inv s)
    (found : lookup id s.holds ≡ some h) (is_reserved : h.status ≡ reserved)
    (wallet : lookup h.user_id s.wallets ≡ some w) where
  amount_nonneg : pos 0 ≤ℤ h.amount_fen
  amount_nonneg = lookup_nonneg id h s.holds v.nonneg found

  wallet-IsSolvent : IsSolvent (some w)
  wallet-IsSolvent = rw wallet at (v.solvent h.user_id)

  amount-le-reserved : h.amount_fen ≤ℤ w.reserved_fen
  amount-le-reserved =
      subst (λ r. h.amount_fen ≤ℤ r) (rw wallet at (v.locked h.user_id))
        (amount-le-held id h s.holds v.nonneg found is_reserved)

  -- The balance that ConfirmHold writes is exact.
  pub confirm_exact : sub64 w.balance_fen h.amount_fen ≡ w.balance_fen -ℤ h.amount_fen
  confirm_exact =
      (release_arith w.balance_fen w.reserved_fen h.amount_fen amount_nonneg amount-le-reserved
        wallet-IsSolvent.1 wallet-IsSolvent.2).1

  held_after :
      (h' : WalletHold)
      → h'.user_id ≡ h.user_id
      → counted h.user_id reserved h' ≡ pos 0
      → held h.user_id (insert id h' s.holds) ≡ w.reserved_fen -ℤ h.amount_fen
  held_after h' same gone =
      let moved = sum-insert h.user_id reserved id h' h s.holds found in
      sub_of_add (held h.user_id (insert id h' s.holds)) h.amount_fen w.reserved_fen
        (rw (gone, counted_self h is_reserved, v.locked h.user_id, wallet) at moved)

  -- Storing the released hold with a wallet that has its amount less reserved, and a balance that
  -- is the old one or has the amount less, keeps the invariant.
  pub release-Inv :
      (h' : WalletHold) (w' : WalletBalance)
      → h'.user_id ≡ h.user_id
      → h'.amount_fen ≡ h.amount_fen
      → counted h.user_id reserved h' ≡ pos 0
      → w'.reserved_fen ≡ sub64 w.reserved_fen h.amount_fen
      → (w'.balance_fen ≡ w.balance_fen) ⊎ (w'.balance_fen ≡ sub64 w.balance_fen h.amount_fen)
      → Inv (record s {
        wallets = insert h.user_id w' s.wallets;
        holds = insert id h' s.holds;
        holds_idx = s.holds_idx;
      })
  release-Inv h' w' same amount gone released balance =
      let sol = wallet-IsSolvent in
      let (exact, paid) =
        release_arith w.balance_fen w.reserved_fen h.amount_fen amount_nonneg amount-le-reserved
          sol.1 sol.2 in
      store-Inv s h.user_id id w' h' s.holds_idx v
        (λ other ne. sum-insert_other other reserved id h' h s.holds (rw same ne) (sym same) found)
        (held_after h' same gone ∙ sym (released ∙ exact))
        (rw (released ∙ exact) (elim balance [
          | inl b ↦ rw b (omega (int_laws, sol, amount-le-reserved, amount_nonneg))
          | inr b ↦ rw (b ∙ paid) (
              omega (
                int_laws,
                sol,
                amount-le-reserved,
                amount_nonneg,
                parts_disjoint (w.balance_fen -ℤ h.amount_fen),
              ))
        ]))
        (rw amount amount_nonneg)
