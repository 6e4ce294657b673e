-- ===== src/Idempotent/Elements.antt =====
-- The linked list of keys, its elements numbered in the order of allocation.
use yunmao.Base.{
  ℕ, suc, ◌≤◌, String, ◌≡◌, refl, Option, none, some, List, [], ◌∷◌, ◌++◌, arith, nat_eq,
  if◌then◌else◌, ◌==◌, eq_iff, length,
}

pub record Element : Type 0 where
  pub id : ℕ
  pub value : String

-- `keys.Remove(e)`
pub remove_id : ℕ → List Element → List Element
remove_id i [] = []
remove_id i (e ∷ es) = if nat_eq e.id i then es else e ∷ remove_id i es

-- The number of the first element that holds a key.
unfoldable pub id_of : String → List Element → Option ℕ
id_of k [] = none
id_of k (e ∷ es) = if e.value == k then some e.id else id_of k es

-- Numbers rise from `lo` on and stay below `hi`.
abbrev pub Rising : ℕ → ℕ → List Element → Type 0
Rising lo hi [] = lo ≤ hi
Rising lo hi (e ∷ es) = (lo ≤ e.id) × Rising (suc e.id) hi es

-- No key stands twice.
abbrev pub IsDistinct : List Element → Type 0
IsDistinct [] = Unit
IsDistinct (e ∷ es) = (id_of e.value es ≡ none) × IsDistinct es

pub Rising-weaken :
    (lo' lo hi : ℕ) (es : List Element) → lo' ≤ lo → Rising lo hi es → Rising lo' hi es
Rising-weaken lo' lo hi [] h r = omega arith
Rising-weaken lo' lo hi (e ∷ es) h r = (omega arith, r.1)

pub id_of_ge :
    (k : String) (lo hi i : ℕ) (es : List Element) → Rising lo hi es → id_of k es ≡ some i → lo ≤ i
unfolding id_of
id_of_ge k lo hi i [] r e = cc
id_of_ge k lo hi i (x ∷ es) r e = ground (arith, id_of_ge k (suc x.id) hi i es)

pub Rising-append :
    (lo hi : ℕ) (es : List Element) (k : String)
    → Rising lo hi es
    → Rising lo (suc hi) (es ++ record { id = hi; value = k } ∷ [])
Rising-append lo hi [] k r = omega arith
Rising-append lo hi (e ∷ es) k r = (r.0, Rising-append (suc e.id) hi es k r.1)

pub remove_id-Rising :
    (i lo hi : ℕ) (es : List Element) → Rising lo hi es → Rising lo hi (remove_id i es)
unfolding remove_id
remove_id-Rising i lo hi [] r = r
remove_id-Rising i lo hi (e ∷ es) r =
    ground (arith, remove_id-Rising i (suc e.id) hi es r.1, Rising-weaken lo (suc e.id) hi es)

-- Removing a key's element takes the key, and no other, off the list.
pub id_of-remove_id :
    (k j : String) (i lo hi : ℕ) (es : List Element)
    → Rising lo hi es
    → IsDistinct es
    → id_of k es ≡ some i
    → id_of j (remove_id i es) ≡ (if k == j then none else id_of j es)
unfolding id_of remove_id
id_of-remove_id k j i lo hi [] r d e = cc
id_of-remove_id k j i lo hi (x ∷ es) r d e = ground (
  arith,
  eq_iff k j,
  eq_iff x.value k,
  eq_iff x.value j,
  id_of_ge k (suc x.id) hi i es,
  id_of-remove_id k j i (suc x.id) hi es r.1 d.1,
)

pub remove_id-IsDistinct :
    (k : String) (i lo hi : ℕ) (es : List Element)
    → Rising lo hi es
    → IsDistinct es
    → id_of k es ≡ some i
    → IsDistinct (remove_id i es)
unfolding id_of remove_id
remove_id-IsDistinct k i lo hi [] r d e = tt
remove_id-IsDistinct k i lo hi (x ∷ es) r d e = ground (
  arith,
  id_of_ge k (suc x.id) hi i es,
  id_of-remove_id k x.value i (suc x.id) hi es r.1 d.1,
  remove_id-IsDistinct k i (suc x.id) hi es r.1 d.1,
)

pub id_of-append :
    (j k : String) (n : ℕ) (es : List Element)
    → id_of k es ≡ none
    → id_of j (es ++ record { id = n; value = k } ∷ []) ≡ (if k == j then some n else id_of j es)
unfolding id_of
id_of-append j k n [] e = refl
id_of-append j k n (x ∷ es) e =
    ground (arith, eq_iff k j, eq_iff x.value k, eq_iff x.value j, id_of-append j k n es)

pub append-IsDistinct :
    (k : String) (n : ℕ) (es : List Element)
    → IsDistinct es
    → id_of k es ≡ none
    → IsDistinct (es ++ record { id = n; value = k } ∷ [])
unfolding id_of
append-IsDistinct k n [] d e = (refl, tt)
append-IsDistinct k n (x ∷ es) d e = ground (
  arith,
  eq_iff k x.value,
  eq_iff x.value k,
  id_of-append x.value k n es,
  append-IsDistinct k n es d.1,
)

pub length-remove_id : (i : ℕ) (es : List Element) → length (remove_id i es) ≤ length es
unfolding remove_id
length-remove_id i [] = omega arith
length-remove_id i (e ∷ es) = ground (arith, length-remove_id i es)
