-- ===== src/Pay/Window.antt =====
-- What the test of the time of a webhook says, with the wrap-around of the int64.
use mathlib.Core.Path.{subst}
use yunmao.Base.{
  ap, ◌<◌, ◌+◌, pos, negsuc, pos_part, neg_part, two63, ◌+ℤ◌, ◌-ℤ◌, ◌<ℤ◌, leb_ℤ, +ℤ_parts, -ℤ_parts,
  parts_disjoint, sub64_exact, ◌≡◌, ◌∙◌, arith, ◌⊎◌, inl, inr, Bool-cases, ℤ, ◌≤ℤ◌, sub64,
}
use yunmao.Pay.{abs}

-- The times are 2 ^ 63 seconds or more apart, so that their difference is no int64 or its distance
-- none.
abbrev pub IsFar : ℤ → ℤ → Type 0
IsFar now t = (t +ℤ pos two63 ≤ℤ now) ⊎ (now +ℤ pos two63 ≤ℤ t)

-- The time is at most the window before or after now, or it is far away.
abbrev pub IsNear : ℤ → ℤ → ℤ → Type 0
IsNear window now t = ((now ≤ℤ t +ℤ window) × (t ≤ℤ now +ℤ window)) ⊎ IsFar now t

abs_exact :
    (d : ℤ) → pos_part d < two63 → neg_part d < two63 → abs d ≡ pos (pos_part d + neg_part d)
unfolding abs
abs_exact (pos n) h k = ground arith
abs_exact (negsuc n) h k =
    ground (arith, sub64_exact (pos 0) (negsuc n), -ℤ_parts (pos 0) (negsuc n))

difference_IsNear :
    (window now t : ℤ)
    → pos_part (now -ℤ t) < two63
    → neg_part (now -ℤ t) < two63
    → abs (sub64 now t) ≤ℤ window
    → (now ≤ℤ t +ℤ window) × (t ≤ℤ now +ℤ window)
difference_IsNear window now t h k near =
    let d = now -ℤ t in
    let e : abs (sub64 now t) ≡ pos (pos_part d + neg_part d) =
      ap abs (sub64_exact now t (h, omega arith)) ∙ abs_exact d h k in
    let n : pos (pos_part d + neg_part d) ≤ℤ window = subst (λ x. x ≤ℤ window) e near in
    (
      omega (arith, n, -ℤ_parts now t, +ℤ_parts t window, parts_disjoint d),
      omega (arith, n, -ℤ_parts now t, +ℤ_parts now window, parts_disjoint d),
    )

pub distance-IsNear : (window now t : ℤ) → abs (sub64 now t) ≤ℤ window → IsNear window now t
distance-IsNear window now t near = elim (Bool-cases (leb_ℤ (t +ℤ pos two63) now)) [
  | inl past ↦ inr (inl (ground arith))
  | inr young ↦ elim (Bool-cases (leb_ℤ (now +ℤ pos two63) t)) [
    | inl future ↦ inr (inr (ground arith))
    | inr old ↦
        let a : now <ℤ t +ℤ pos two63 = ground arith in
        let b : t <ℤ now +ℤ pos two63 = ground arith in
        let d = now -ℤ t in
        inl (
          difference_IsNear window now t
            (omega (arith, a, -ℤ_parts now t, +ℤ_parts t (pos two63), parts_disjoint d))
            (omega (arith, b, -ℤ_parts now t, +ℤ_parts now (pos two63), parts_disjoint d)) near)
  ]
]
