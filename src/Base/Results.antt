-- ===== src/Base/Results.antt =====
-- Go's `(value, error)` and methods that may return early with an error: a state and an error, the
-- state kept after an error, since what was written stays written.
use mathlib.Core.Bool.{Bool}
use yunmao.Base.Tests.{if◌then◌else◌}

pub data Fallible (E A : Type 0) : Type 0 where
  returns : A → Fallible E A
  fails : E → Fallible E A

abbrev pub Action : Type 0 → Type 0 → Type 0 → Type 0
Action S E A = S → Fallible E A × S

module _ {S E : Type 0} where
  abbrev pub pure : {A : Type 0} → A → Action S E A
  pure a s = (returns a, s)

  abbrev pub fail : {A : Type 0} → E → Action S E A
  fail e s = (fails e, s)

  -- `if c { return nil, e }`
  abbrev pub fail_if : Bool → E → Action S E (Unit {0})
  fail_if c e s = (if c then fails e else returns tt, s)

  infixl 5 ◌>>=◌ ◌>>◌
  abbrev pub ◌>>=◌ : {A B : Type 0} → Action S E A → (A → Action S E B) → Action S E B
  ◌>>=◌ m f s = let (r, s') = m s in elim r [ returns a ↦ f a s' | fails e ↦ (fails e, s') ]

  abbrev pub ◌>>◌ : {A B : Type 0} → Action S E A → Action S E B → Action S E B
  m >> k = m >>= λ _. k
