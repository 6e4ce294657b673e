-- ===== src/BillingStore/Amounts.antt =====
-- The int64 arithmetic of the wallet saga, where 0 ≤ reserved ≤ balance.
use yunmao.Base.{
  ◌<◌, ◌≡◌, false, ℤ, pos, pos_part, ◌+ℤ◌, ◌-ℤ◌, ◌≤ℤ◌, ltb_ℤ, int_laws, two63, add64, sub64,
  add64_exact, sub64_exact, parts_disjoint, le_of_not_ltb_ℤ,
}

-- The int64 arithmetic of a reservation is exact: nothing wraps while 0 ≤ reserved ≤ balance.
pub reserve_arith :
    (b r a : ℤ)
    → pos 0 ≤ℤ r
    → r ≤ℤ b
    → pos_part b < two63
    → pos 0 ≤ℤ a
    → ltb_ℤ (sub64 b r) a ≡ false
    → (add64 r a ≡ r +ℤ a) × (r +ℤ a ≤ℤ b)
reserve_arith b r a p q w n fits =
    let exact : sub64 b r ≡ b -ℤ r =
      sub64_exact b r
        (omega (int_laws, parts_disjoint (b -ℤ r), parts_disjoint b, parts_disjoint r)) in
    let room : a ≤ℤ b -ℤ r = le_of_not_ltb_ℤ _ a (rw exact at fits) in
    let bound : r +ℤ a ≤ℤ b = omega int_laws in
    (
      add64_exact r a
          (omega (int_laws, parts_disjoint (r +ℤ a), parts_disjoint b, parts_disjoint r)),
      bound,
    )

-- Releasing a part of what is reserved is exact too.
pub release_arith :
    (b r a : ℤ)
    → pos 0 ≤ℤ a
    → a ≤ℤ r
    → r ≤ℤ b
    → pos_part b < two63
    → (sub64 r a ≡ r -ℤ a) × (sub64 b a ≡ b -ℤ a)
release_arith b r a n p q w = (
  sub64_exact r a (omega (int_laws, parts_disjoint (r -ℤ a), parts_disjoint b, parts_disjoint r)),
  sub64_exact b a (omega (int_laws, parts_disjoint (b -ℤ a), parts_disjoint b, parts_disjoint a)),
)

-- A top-up that does not run past an int64 is exact.
pub top_up_exact :
    (b r a : ℤ)
    → pos 0 ≤ℤ a
    → (pos 0 ≤ℤ r) × (r ≤ℤ b) × (pos_part b < two63)
    → pos_part (b +ℤ a) < two63
    → add64 b a ≡ b +ℤ a
top_up_exact b r a n sol fits =
    add64_exact b a (omega (int_laws, fits, sol, n, parts_disjoint (b +ℤ a)))
