-- ===== src/BillingStore/Sums.antt =====
-- What the holds of a user add up to: the amounts that are still reserved, and those confirmed.
use mathlib.Core.Path.{subst}
use yunmao.Base.{
  String, ◌≡◌, none, some, [], ◌∷◌, arith, if◌then◌else◌, ◌==◌, eq_refl, ==_of_ne, ◌≢◌, ◌∙◌,
  add_cancel, Bool-cases, inl, inr, ℤ, pos, ◌+ℤ◌, ◌≤ℤ◌, int_laws, Dict, lookup, insert, sum_by,
  sum_by-insert, sum_by-insert_new,
}
use yunmao.BillingStore.{WalletHold, HoldStatus, reserved, confirmed}

abbrev pub amount_if : HoldStatus → HoldStatus → ℤ → ℤ
amount_if reserved reserved a = a
amount_if confirmed confirmed a = a
amount_if _ _ a = pos 0

-- The amount that a hold counts for a user under a status.
abbrev pub counted : String → HoldStatus → WalletHold → ℤ
counted user st h = if h.user_id == user then amount_if st h.status h.amount_fen else pos 0

-- The holds of the user that are reserved, and those that are confirmed, in fen.
abbrev pub held : String → Dict WalletHold → ℤ
held user = sum_by (counted user reserved)

abbrev pub spent : String → Dict WalletHold → ℤ
spent user = sum_by (counted user confirmed)

-- No hold has a negative amount.
abbrev pub AllNonneg : Dict WalletHold → Type 0
AllNonneg [] = Unit
AllNonneg ((k, h) ∷ holds) = (pos 0 ≤ℤ h.amount_fen) × AllNonneg holds

pub insert-AllNonneg :
    (k : String) (h : WalletHold) (holds : Dict WalletHold)
    → AllNonneg holds
    → pos 0 ≤ℤ h.amount_fen
    → AllNonneg (insert k h holds)
unfolding insert
insert-AllNonneg k h [] a p = (p, tt)
insert-AllNonneg k h ((j, x) ∷ holds) a p = ground (arith, insert-AllNonneg k h holds a.1 p)

pub lookup_nonneg :
    (k : String) (h : WalletHold) (holds : Dict WalletHold)
    → AllNonneg holds
    → lookup k holds ≡ some h
    → pos 0 ≤ℤ h.amount_fen
unfolding lookup
lookup_nonneg k h [] a e = cc
lookup_nonneg k h ((j, x) ∷ holds) a e = ground (arith, lookup_nonneg k h holds a.1)

counted_nonneg :
    (user : String) (st : HoldStatus) (h : WalletHold)
    → pos 0 ≤ℤ h.amount_fen
    → pos 0 ≤ℤ counted user st h
counted_nonneg user st h p = ground arith

pub sum_nonneg :
    (user : String) (st : HoldStatus) (holds : Dict WalletHold)
    → AllNonneg holds
    → pos 0 ≤ℤ sum_by (counted user st) holds
sum_nonneg user st [] a = omega arith
sum_nonneg user st ((j, x) ∷ holds) a =
    omega (int_laws, counted_nonneg user st x a.0, sum_nonneg user st holds a.1)

pub counted_self :
    (h : WalletHold) → h.status ≡ reserved → counted h.user_id reserved h ≡ h.amount_fen
counted_self h r = ground (arith, eq_refl h.user_id)

counted-le-sum :
    (user : String) (st : HoldStatus) (k : String) (h : WalletHold) (holds : Dict WalletHold)
    → AllNonneg holds
    → lookup k holds ≡ some h
    → counted user st h ≤ℤ sum_by (counted user st) holds
unfolding lookup
counted-le-sum user st k h [] a e = cc
counted-le-sum user st k h ((j, x) ∷ holds) a e = elim (Bool-cases (j == k)) [
  | inl hit ↦
      let same : x ≡ h = ground arith in rw same (omega (int_laws, sum_nonneg user st holds a.1))
  | inr miss ↦
      let rest : lookup k holds ≡ some h = ground arith in
      omega (int_laws, counted-le-sum user st k h holds a.1 rest, counted_nonneg user st x a.0)
]

-- A reserved hold is part of what its user has reserved.
pub amount-le-held :
    (k : String) (h : WalletHold) (holds : Dict WalletHold)
    → AllNonneg holds
    → lookup k holds ≡ some h
    → h.status ≡ reserved
    → h.amount_fen ≤ℤ held h.user_id holds
amount-le-held k h holds a e r =
    subst (λ x. x ≤ℤ held h.user_id holds) (counted_self h r)
      (counted-le-sum h.user_id reserved k h holds a e)

-- How the sums of a user move when a hold is added, and when it is stored over an older one.
pub sum-insert_new :
    (user : String) (st : HoldStatus) (k : String) (h : WalletHold) (holds : Dict WalletHold)
    → lookup k holds ≡ none
    → sum_by (counted user st) (insert k h holds)
      ≡ sum_by (counted user st) holds +ℤ counted user st h
sum-insert_new user st k h holds e = sum_by-insert_new (counted user st) k h holds e

pub sum-insert :
    (user : String) (st : HoldStatus) (k : String) (h old : WalletHold) (holds : Dict WalletHold)
    → lookup k holds ≡ some old
    → sum_by (counted user st) (insert k h holds) +ℤ counted user st old
      ≡ sum_by (counted user st) holds +ℤ counted user st h
sum-insert user st k h old holds e = sum_by-insert (counted user st) k h old holds e

-- A user's sums do not see the holds of others.
foreign :
    (other : String) (st : HoldStatus) (h : WalletHold)
    → h.user_id ≢ other
    → counted other st h ≡ pos 0
foreign other st h ne = ground (arith, ==_of_ne h.user_id other ne)

pub sum-insert_new_other :
    (other : String) (st : HoldStatus) (k : String) (h : WalletHold) (holds : Dict WalletHold)
    → h.user_id ≢ other
    → lookup k holds ≡ none
    → sum_by (counted other st) (insert k h holds) ≡ sum_by (counted other st) holds
sum-insert_new_other other st k h holds ne e =
    sum-insert_new other st k h holds e ∙ rw (foreign other st h ne) (omega int_laws)

pub sum-insert_other :
    (other : String) (st : HoldStatus) (k : String) (h old : WalletHold) (holds : Dict WalletHold)
    → h.user_id ≢ other
    → old.user_id ≡ h.user_id
    → lookup k holds ≡ some old
    → sum_by (counted other st) (insert k h holds) ≡ sum_by (counted other st) holds
sum-insert_other other st k h old holds ne same e = add_cancel _ _ (
    rw (foreign other st h ne, foreign other st old (rw same ne)) at
      (sum-insert other st k h old holds e))
