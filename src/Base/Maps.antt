-- ===== src/Base/Maps.antt =====
-- A Go map with text keys, as an association list. The order of the list stands for the order in
-- which a `range` loop visits the map, which Go leaves open.
use Prim.Native.String.{String}
use mathlib.Core.Path.{◌≡◌}
use mathlib.Core.Logic.{◌≢◌}
use mathlib.Core.Option.{Option, none, some}
use mathlib.Core.List.{List, [], ◌∷◌}
use native.Mathlib.Omega.{arith}
use yunmao.Base.Int.{ℤ, pos, ◌+ℤ◌, int_laws}
use yunmao.Base.Tests.{if◌then◌else◌}
use yunmao.Base.Text.{◌==◌, eq_iff, eq_refl, ==_of_ne}

abbrev pub Dict {ℓ} : Type ℓ → Type ℓ
Dict V = List (String × V)

module _ {ℓ} {V : Type ℓ} where
  -- `delete(m, key)`
  unfoldable pub erase : String → Dict V → Dict V
  erase key [] = []
  erase key ((k, w) ∷ rows) = let rest = erase key rows in if k == key then rest else (k, w) ∷ rest

  -- `m[key]`
  unfoldable pub lookup : String → Dict V → Option V
  lookup key [] = none
  lookup key ((k, w) ∷ rows) = let later = lookup key rows in if k == key then some w else later

  pub lookup-erase :
      (k key : String) (rows : Dict V)
      → lookup key (erase k rows) ≡ (if k == key then none else lookup key rows)
  unfolding lookup erase
  lookup-erase k key [] = ground arith
  lookup-erase k key ((i, w) ∷ rows) =
      ground (arith, eq_iff i k, eq_iff i key, eq_iff k key, lookup-erase k key rows)

  pub lookup-erase_self : (key : String) (rows : Dict V) → lookup key (erase key rows) ≡ none
  lookup-erase_self key rows = simp (lookup-erase, eq_refl)

  -- `m[key] = v`
  unfoldable pub insert : String → V → Dict V → Dict V
  insert key v [] = (key, v) ∷ []
  insert key v ((k, w) ∷ rows) =
      let rest = insert key v rows in if k == key then (key, v) ∷ rows else (k, w) ∷ rest

  pub lookup-insert :
      (k key : String) (v : V) (rows : Dict V)
      → lookup key (insert k v rows) ≡ (if k == key then some v else lookup key rows)
  unfolding lookup insert
  lookup-insert k key v [] = ground arith
  lookup-insert k key v ((i, w) ∷ rows) =
      ground (arith, lookup-insert k key v rows, eq_iff i key, eq_iff i k, eq_iff k key)

  pub lookup-insert_self :
      (key : String) (v : V) (rows : Dict V) → lookup key (insert key v rows) ≡ some v
  lookup-insert_self key v rows = simp (lookup-insert, eq_refl)

  pub lookup-insert_ne :
      (k key : String) (v : V) (rows : Dict V)
      → k ≢ key
      → lookup key (insert k v rows) ≡ lookup key rows
  lookup-insert_ne k key v rows h = ground (arith, lookup-insert k key v rows, ==_of_ne k key h)

-- The sum of an amount over the values of a map.
abbrev pub sum_by {ℓ} : {V : Type ℓ} → (V → ℤ) → Dict V → ℤ
sum_by f [] = pos 0
sum_by f ((k, v) ∷ m) = f v +ℤ sum_by f m

pub sum_by-insert_new {ℓ} :
    {V : Type ℓ} (f : V → ℤ) (k : String) (v : V) (m : Dict V)
    → lookup k m ≡ none
    → sum_by f (insert k v m) ≡ sum_by f m +ℤ f v
unfolding lookup insert
sum_by-insert_new f k v [] e = omega int_laws
sum_by-insert_new f k v ((j, w) ∷ m) e = grind (int_laws, sum_by-insert_new f k v m)

pub sum_by-insert {ℓ} :
    {V : Type ℓ} (f : V → ℤ) (k : String) (v old : V) (m : Dict V)
    → lookup k m ≡ some old
    → sum_by f (insert k v m) +ℤ f old ≡ sum_by f m +ℤ f v
unfolding lookup insert
sum_by-insert f k v old [] e = cc
sum_by-insert f k v old ((j, w) ∷ m) e = grind (int_laws, sum_by-insert f k v old m)
