-- ===== src/Pay/Reconcile/Judging.antt =====
-- When a record of the reconciliation has no reason.
use yunmao.Base.{
  String, append, ◌≡◌, refl, sym, ap, ◌∙◌, ◌↔◌, arith, ◌⊎◌, inl, inr, Bool, true, false, not, ◌&&◌,
  ◌||◌, ℤ, pos, pos_part, neg_part, ltb_ℤ, ◌≤ℤ◌, le_of_not_ltb_ℤ, eq_of_parts, ◌==◌, eq_iff, Time,
  if◌then◌else◌,
}
use yunmao.Pay.Reconcile.{ReconcileRecord, LocalOrder, eq_ℤ, diff_of, record_of}

-- The channel has the same status or none, and the same amount or no positive one.
abbrev pub Agrees : ReconcileRecord → Type 0
Agrees r =
    ((r.remote_status ≡ r.local_status) ⊎ (r.remote_status ≡ ""))
    × ((r.remote_amount_fen ≤ℤ pos 0) ⊎ (r.remote_amount_fen ≡ r.local_amount_fen))

-- The text of a difference by its four tests: same status, no status, a positive amount, same amount.
abbrev reason : Bool → Bool → Bool → Bool → String
reason a b c d =
    let diff = if not a && not b then "status_mismatch" else "" in
    if c && not d
    then if diff == "" then "amount_mismatch" else append diff ",amount_mismatch"
    else diff

reason_empty : (a b c d : Bool) → (reason a b c d == "") ≡ ((a || b) && (not c || d))
reason_empty true true true true = refl
reason_empty true false true true = refl
reason_empty false true true true = refl
reason_empty false false true true = refl
reason_empty a b c d = refl

tests_iff :
    (a b c d : Bool)
    → (((a || b) && (not c || d)) ≡ true) ↔ (((a ≡ true) ⊎ (b ≡ true)) × ((c ≡ false) ⊎ (d ≡ true)))
tests_iff a b c d = ground arith

eq_ℤ_iff : (a b : ℤ) → (eq_ℤ a b ≡ true) ↔ (a ≡ b)
eq_ℤ_iff a b =
    (λ h. eq_of_parts a b (ground arith), λ e. ground (arith, ap pos_part e, ap neg_part e))

positive_iff : (a : ℤ) → (ltb_ℤ (pos 0) a ≡ false) ↔ (a ≤ℤ pos 0)
positive_iff a = (λ h. le_of_not_ltb_ℤ (pos 0) a h, λ h. ground arith)

⊎_map : {A B C D : Type 0} → (A → C) → (B → D) → A ⊎ B → C ⊎ D
⊎_map f g (inl a) = inl (f a)
⊎_map f g (inr b) = inr (g b)

pub diff_of_iff :
    (run : String) (o : LocalOrder) (remote : String × ℤ) (now : Time)
    → let r = record_of run o remote now in (r.diff_reason ≡ "") ↔ Agrees r
unfolding record_of diff_of
diff_of_iff run o (status, amount) now =
    let a = status == o.status in
    let b = status == "" in
    let c = ltb_ℤ (pos 0) amount in
    let d = eq_ℤ amount o.amount_fen in
    let text = reason a b c d in
    let tests = tests_iff a b c d in
    (
      λ h.
          let (x, y) = tests.0 (sym (reason_empty a b c d) ∙ (eq_iff text "").1 h) in
          (
            ⊎_map (eq_iff status o.status).0 (eq_iff status "").0 x,
            ⊎_map (positive_iff amount).0 (eq_ℤ_iff amount o.amount_fen).0 y,
          ),
      λ h. (eq_iff text "").0 (
          reason_empty a b c d
          ∙ tests.1 (
            ⊎_map (eq_iff status o.status).1 (eq_iff status "").1 h.0,
            ⊎_map (positive_iff amount).1 (eq_ℤ_iff amount o.amount_fen).1 h.1,
          )),
    )
