-- ===== src/BillingStore/Conservation.antt =====
-- Money is conserved: a user's balance and what was confirmed move together, by top-ups alone.
use mathlib.Core.Path.{subst}
use yunmao.Base.{
  ◌<◌, String, ◌≡◌, refl, ◌∙◌, ap, ◌≢◌, none, some, arith, if◌then◌else◌, ◌==◌, eq_iff, eq_refl,
  eq_of_==, ne_of_==, Bool-cases, Option-cases, inl, inr, ℤ, pos, pos_part, neg_part, ◌+ℤ◌, ◌-ℤ◌,
  ◌≤ℤ◌, ltb_ℤ, int_laws, two63, add64, add_cancel, sub64, Dict, lookup, insert, lookup-insert,
  lookup-insert_self, lookup-insert_ne, Time,
}
use yunmao.BillingStore.{
  WalletHold, WalletBalance, HoldStatus, reserved, confirmed, cancelled, expired, MemoryStore,
  empty_wallet, ensure_wallet, reserve_new, reserve_hold, confirm_found, confirm_hold, cancel_found,
  cancel_hold, top_up_wallet, hold_key,
}
use yunmao.BillingStore.Sums.{
  counted, spent, sum-insert_new, sum-insert, sum-insert_new_other, sum-insert_other,
}
use yunmao.BillingStore.Invariant.{Inv, IsSolvent, balance_of, ensure_wallet-Inv}
use yunmao.BillingStore.Amounts.{top_up_exact}
use yunmao.BillingStore.Release.{confirm_exact}

-- What a user has put in and not taken back: the balance and the confirmed holds.
abbrev pub paid_in : String → MemoryStore → ℤ
paid_in user s = balance_of (lookup user s.wallets) +ℤ spent user s.holds

moved : (a b c d : ℤ) → a +ℤ pos 0 ≡ b +ℤ c → (d -ℤ c) +ℤ a ≡ d +ℤ b
moved a b c d h = omega (int_laws, ap pos_part h, ap neg_part h)

ensure_wallet-paid_in :
    (s : MemoryStore) (owner region user : String) (now : Time)
    → paid_in user (ensure_wallet s owner region now).1 ≡ paid_in user s
unfolding ensure_wallet
ensure_wallet-paid_in s owner region user now = elim (Option-cases (lookup owner s.wallets)) [
  | inl e ↦
      rw (e, ensure_wallet)
        (ap (λ b. b +ℤ spent user s.holds)
          (ground (
            arith,
            eq_iff owner user,
            lookup-insert owner user (empty_wallet owner region now) s.wallets,
          )))
  | inr (w, e) ↦ rw (e, ensure_wallet)
]

-- Storing a wallet and new holds moves no money if it moves none of the wallet's owner.
store-paid_in :
    (s : MemoryStore) (owner user : String) (w w' : WalletBalance) (holds : Dict WalletHold)
    → lookup owner s.wallets ≡ some w
    → (owner ≢ user → spent user holds ≡ spent user s.holds)
    → w'.balance_fen +ℤ spent owner holds ≡ w.balance_fen +ℤ spent owner s.holds
    → balance_of (lookup user (insert owner w' s.wallets)) +ℤ spent user holds ≡ paid_in user s
store-paid_in s owner user w w' holds wallet others own = elim (Bool-cases (owner == user)) [
  | inl e ↦
      subst (λ u. balance_of (lookup u (insert owner w' s.wallets)) +ℤ spent u holds ≡ paid_in u s)
        (eq_of_== owner user e) (rw (lookup-insert_self owner w' s.wallets, wallet) own)
  | inr e ↦
      let ne = ne_of_== owner user e in rw (lookup-insert_ne owner user w' s.wallets ne, others ne)
]

reserve_new-paid_in :
    (s : MemoryStore) (h : WalletHold) (now : Time) (w : WalletBalance) (user : String)
    → lookup h.user_id s.wallets ≡ some w
    → lookup h.id s.holds ≡ none
    → h.status ≡ reserved
    → paid_in user (reserve_new s h now w).1 ≡ paid_in user s
unfolding reserve_new
reserve_new-paid_in s h now w user wallet fresh st =
    let none_spent : counted h.user_id confirmed h ≡ pos 0 = ground arith in
    elim (Bool-cases (ltb_ℤ (sub64 w.balance_fen w.reserved_fen) h.amount_fen)) [
      | inl short ↦ rw short
      | inr fits ↦ rw fits (
          store-paid_in s h.user_id user w _ (insert h.id h s.holds) wallet
            (λ ne. sum-insert_new_other user confirmed h.id h s.holds ne fresh)
            (rw (sum-insert_new h.user_id confirmed h.id h s.holds fresh, none_spent)
              (omega int_laws)))
    ]

-- A reservation moves no money.
pub reserve_hold-paid_in :
    (s : MemoryStore) (h : WalletHold) (opened now : Time) (user : String)
    → Inv s
    → lookup h.id s.holds ≡ none
    → h.status ≡ reserved
    → paid_in user (reserve_hold s h opened now).1 ≡ paid_in user s
unfolding reserve_hold
reserve_hold-paid_in s h opened now user v fresh st =
    elim (Option-cases (lookup (hold_key h) s.holds_idx)) [
      | inl new ↦
          let (w, s') = ensure_wallet s h.user_id h.region_id opened in
          let (_, wallet, same, _) = ensure_wallet-Inv s h.user_id h.region_id opened v in
          rw (new, reserve_hold)
            (reserve_new-paid_in s' h now w user wallet (rw same fresh) st
              ∙ ensure_wallet-paid_in s h.user_id h.region_id user opened)
      | inr (existing, old) ↦ elim (Option-cases (lookup existing s.holds)) [
        | inl dangling ↦ rw (old, dangling, reserve_hold)
        | inr (x, kept) ↦ rw (old, kept, reserve_hold)
      ]
    ]

confirm_found-paid_in :
    (s : MemoryStore) (id : String) (at now : Time) (h : WalletHold) (st : HoldStatus)
    (user : String)
    → Inv s
    → lookup id s.holds ≡ some h
    → h.status ≡ st
    → paid_in user (confirm_found s id at now h st).1 ≡ paid_in user s
unfolding confirm_found
confirm_found-paid_in s id at now h confirmed user v found e = refl
confirm_found-paid_in s id at now h cancelled user v found e = refl
confirm_found-paid_in s id at now h expired user v found e = refl
confirm_found-paid_in s id at now h reserved user v found e =
    let (w, s') = ensure_wallet s h.user_id h.region_id now in
    let (v', wallet, same, _) = ensure_wallet-Inv s h.user_id h.region_id now v in
    let found' : lookup id s'.holds ≡ some h = rw same found in
    let h' : WalletHold = record h { status = confirmed; updated_at = at } in
    let before : counted h.user_id confirmed h ≡ pos 0 = ground arith in
    let now_spent : counted h.user_id confirmed h' ≡ h.amount_fen =
      ground (arith, eq_refl h.user_id) in
    store-paid_in s' h.user_id user w _ (insert id h' s'.holds) wallet
      (λ ne. sum-insert_other user confirmed id h' h s'.holds ne refl found')
      (rw (confirm_exact s' id h w v' found' e wallet) (
        moved _ _ _ _
          (rw (before, now_spent) at (sum-insert h.user_id confirmed id h' h s'.holds found'))))
    ∙ ensure_wallet-paid_in s h.user_id h.region_id user now

-- A confirmation turns balance into spent money, fen for fen.
pub confirm_hold-paid_in :
    (s : MemoryStore) (id : String) (at now : Time) (user : String)
    → Inv s
    → paid_in user (confirm_hold s id at now).1 ≡ paid_in user s
unfolding confirm_hold
confirm_hold-paid_in s id at now user v = elim (Option-cases (lookup id s.holds)) [
  | inl gone ↦ rw (gone, confirm_hold)
  | inr (h, found) ↦
      rw (found, confirm_hold) (confirm_found-paid_in s id at now h h.status user v found refl)
]

cancel_found-paid_in :
    (s : MemoryStore) (id : String) (at now : Time) (h : WalletHold) (st : HoldStatus)
    (user : String)
    → Inv s
    → lookup id s.holds ≡ some h
    → h.status ≡ st
    → paid_in user (cancel_found s id at now h st).1 ≡ paid_in user s
unfolding cancel_found
cancel_found-paid_in s id at now h confirmed user v found e = refl
cancel_found-paid_in s id at now h cancelled user v found e = refl
cancel_found-paid_in s id at now h expired user v found e = refl
cancel_found-paid_in s id at now h reserved user v found e =
    let (w, s') = ensure_wallet s h.user_id h.region_id now in
    let (_, wallet, same, _) = ensure_wallet-Inv s h.user_id h.region_id now v in
    let found' : lookup id s'.holds ≡ some h = rw same found in
    let h' : WalletHold = record h { status = cancelled; updated_at = at } in
    let before : counted h.user_id confirmed h ≡ pos 0 = ground arith in
    let after : counted h.user_id confirmed h' ≡ pos 0 = ground arith in
    store-paid_in s' h.user_id user w _ (insert id h' s'.holds) wallet
      (λ ne. sum-insert_other user confirmed id h' h s'.holds ne refl found')
      (ap (λ x. w.balance_fen +ℤ x)
        (add_cancel _ _
          (rw (before, after) at (sum-insert h.user_id confirmed id h' h s'.holds found'))))
    ∙ ensure_wallet-paid_in s h.user_id h.region_id user now

-- A cancellation moves no money.
pub cancel_hold-paid_in :
    (s : MemoryStore) (id : String) (at now : Time) (user : String)
    → Inv s
    → paid_in user (cancel_hold s id at now).1 ≡ paid_in user s
unfolding cancel_hold
cancel_hold-paid_in s id at now user v = elim (Option-cases (lookup id s.holds)) [
  | inl gone ↦ rw (gone, cancel_hold)
  | inr (h, found) ↦
      rw (found, cancel_hold) (cancel_found-paid_in s id at now h h.status user v found refl)
]

regroup : (a b c : ℤ) → (a +ℤ b) +ℤ c ≡ (a +ℤ c) +ℤ b
regroup a b c = omega int_laws

credit-paid_in :
    (s : MemoryStore) (owner user : String) (w w' : WalletBalance) (amount : ℤ)
    → lookup owner s.wallets ≡ some w
    → w'.balance_fen ≡ w.balance_fen +ℤ amount
    → balance_of (lookup user (insert owner w' s.wallets)) +ℤ spent user s.holds
      ≡ paid_in user s +ℤ (if owner == user then amount else pos 0)
credit-paid_in s owner user w w' amount wallet credited = elim (Bool-cases (owner == user)) [
  | inl e ↦ rw e (
      subst
        (λ u.
          balance_of (lookup u (insert owner w' s.wallets)) +ℤ spent u s.holds
          ≡ paid_in u s +ℤ amount)
        (eq_of_== owner user e)
        (rw (lookup-insert_self owner w' s.wallets, wallet, credited)
          (regroup w.balance_fen amount (spent owner s.holds))))
  | inr e ↦
      rw (e, lookup-insert_ne owner user w' s.wallets (ne_of_== owner user e)) (omega int_laws)
]

-- A top-up pays in its amount for its user, and nothing for another.
pub top_up_wallet-paid_in :
    (s : MemoryStore) (owner user : String) (amount : ℤ) (opened now : Time)
    → Inv s
    → pos 0 ≤ℤ amount
    → pos_part (balance_of (lookup owner s.wallets) +ℤ amount) < two63
    → paid_in user (top_up_wallet s owner amount opened now)
      ≡ paid_in user s +ℤ (if owner == user then amount else pos 0)
unfolding top_up_wallet
top_up_wallet-paid_in s owner user amount opened now v n room =
    let (w, s') = ensure_wallet s owner "global" opened in
    let (v', wallet, _, balance) = ensure_wallet-Inv s owner "global" opened v in
    let sol : IsSolvent (some w) = rw wallet at (v'.solvent owner) in
    let exact : add64 w.balance_fen amount ≡ w.balance_fen +ℤ amount =
      top_up_exact w.balance_fen w.reserved_fen amount n sol (rw balance room) in
    credit-paid_in s' owner user w _ amount wallet exact
    ∙ ap (λ m. m +ℤ (if owner == user then amount else pos 0))
        (ensure_wallet-paid_in s owner "global" user opened)
