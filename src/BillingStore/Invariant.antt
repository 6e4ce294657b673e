-- ===== src/BillingStore/Invariant.antt =====
-- The wallet invariant: what a wallet has reserved is exactly the sum of the user's reserved holds,
-- and never more than the balance.
use mathlib.Core.Path.{subst}
use yunmao.Base.{
  ◌<◌, String, ◌≡◌, refl, sym, ◌∙◌, ap, ◌≢◌, Option, none, some, arith, ◌==◌, eq_of_==, ne_of_==,
  Bool-cases, Option-cases, inl, inr, ℤ, pos, pos_part, ◌≤ℤ◌, two63, Dict, lookup, insert,
  lookup-insert_self, lookup-insert_ne, Time,
}
use yunmao.BillingStore.{
  WalletHold, WalletBalance, MemoryStore, empty_wallet, ensure_wallet, new_memory_store,
}
use yunmao.BillingStore.Sums.{held, AllNonneg, insert-AllNonneg}

abbrev pub balance_of : Option WalletBalance → ℤ
balance_of none = pos 0
balance_of (some w) = w.balance_fen

abbrev pub reserved_of : Option WalletBalance → ℤ
reserved_of none = pos 0
reserved_of (some w) = w.reserved_fen

-- 0 ≤ reserved ≤ balance < 2 ^ 63.
abbrev pub IsSolvent : Option WalletBalance → Type 0
IsSolvent w =
    (pos 0 ≤ℤ reserved_of w) × (reserved_of w ≤ℤ balance_of w) × (pos_part (balance_of w) < two63)

pub record Inv (s : MemoryStore) : Type 0 where
  pub locked : (user : String) → held user s.holds ≡ reserved_of (lookup user s.wallets)
  pub solvent : (user : String) → IsSolvent (lookup user s.wallets)
  pub nonneg : AllNonneg s.holds

pub new_memory_store-Inv : Inv new_memory_store
unfolding new_memory_store lookup
new_memory_store-Inv = record { locked = λ u. refl; solvent = λ u. omega arith; nonneg = tt }

-- A change that concerns one user keeps the invariant if that user's wallet and holds still fit.
pub keep :
    (s s' : MemoryStore) (user : String)
    → Inv s
    → ((other : String)
        → user ≢ other
        → (lookup other s'.wallets ≡ lookup other s.wallets)
          × (held other s'.holds ≡ held other s.holds))
    → held user s'.holds ≡ reserved_of (lookup user s'.wallets)
    → IsSolvent (lookup user s'.wallets)
    → AllNonneg s'.holds
    → Inv s'
keep s s' user v same locked solvent nonneg = record {
  locked = λ other. elim (Bool-cases (user == other)) [
    | inl e ↦
        subst (λ u. held u s'.holds ≡ reserved_of (lookup u s'.wallets)) (eq_of_== user other e)
          locked
    | inr e ↦
        let (w, h) = same other (ne_of_== user other e) in
        h ∙ v.locked other ∙ ap reserved_of (sym w)
  ];
  solvent = λ other. elim (Bool-cases (user == other)) [
    | inl e ↦ subst (λ u. IsSolvent (lookup u s'.wallets)) (eq_of_== user other e) solvent
    | inr e ↦ let (w, _) = same other (ne_of_== user other e) in rw w (v.solvent other)
  ];
  nonneg = nonneg;
}

-- ensureWallet keeps the invariant and the holds, and what it returns is the user's wallet.
pub ensure_wallet-Inv :
    (s : MemoryStore) (user region : String) (now : Time)
    → Inv s
    → let (w, s') = ensure_wallet s user region now in
      Inv s'
      × (lookup user s'.wallets ≡ some w)
      × (s'.holds ≡ s.holds)
      × (w.balance_fen ≡ balance_of (lookup user s.wallets))
unfolding ensure_wallet
ensure_wallet-Inv s user region now v = elim (Option-cases (lookup user s.wallets)) [
  | inl e ↦
      let w = empty_wallet user region now in
      let found = lookup-insert_self user w s.wallets in
      rw (e, ensure_wallet)
        (
          keep s (record s { wallets = insert user w s.wallets }) user v
              (λ other ne. (lookup-insert_ne user other w s.wallets ne, refl))
              (rw found (v.locked user ∙ ap reserved_of e)) (rw found (omega arith)) v.nonneg,
          found,
          refl,
          refl,
        )
  | inr (w, e) ↦ rw (e, ensure_wallet) (v, e, refl, refl)
]

-- A wallet and a hold of its user are stored together, in every method of the saga.
pub store-Inv :
    (s : MemoryStore) (user id : String) (w : WalletBalance) (h : WalletHold) (idx : Dict String)
    → Inv s
    → ((other : String) → user ≢ other → held other (insert id h s.holds) ≡ held other s.holds)
    → held user (insert id h s.holds) ≡ w.reserved_fen
    → IsSolvent (some w)
    → pos 0 ≤ℤ h.amount_fen
    → Inv (record s {
      wallets = insert user w s.wallets;
      holds = insert id h s.holds;
      holds_idx = idx;
    })
store-Inv s user id w h idx v others own solvent n =
    let found = lookup-insert_self user w s.wallets in
    keep s _ user v (λ other ne. (lookup-insert_ne user other w s.wallets ne, others other ne))
      (rw found own) (rw found solvent) (insert-AllNonneg id h s.holds v.nonneg n)
