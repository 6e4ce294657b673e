-- ===== src/Cache.antt =====
-- The key-value store behind idempotency keys, limits and cooldowns, go/pkg/yunmao/cache: the
-- interface Store, and what rests on any Store. `C` is the state of the store, its clock included.
pub mod Memory
pub mod Cooling
mod Tests
use yunmao.Base.{
  ℕ, String, append, Bool, true, false, Option, none, some, if◌then◌else◌, ℤ, pos, leb_ℤ, Fallible,
  returns, fails, Action, pure, fail, ◌>>=◌, ◌>>◌, List, [], ◌∷◌, Duration, add64, second,
}

-- The interface Store. An error is its text.
pub record Store (C : Type 0) : Type 0 where
  pub set : String → String → Duration → Action C String (Unit {0})
  pub set_nx : String → String → Duration → Action C String Bool
  pub get : String → Action C String (Option String)
  pub incr_by : String → ℤ → Duration → Action C String ℤ
  pub expire : String → Duration → Action C String (Unit {0})
  pub del : String → Action C String (Unit {0})

-- The parts of a key after the first one.
joined : List String → String
joined [] = ""
joined (p ∷ ps) = append ":" (append p (joined ps))

-- `K(parts...)`
unfoldable pub key : List String → String
unfolding joined
key [] = "yunmao:"
key (p ∷ ps) = append "yunmao:" (append p (joined ps))

pub record Idempotent : Type 0 where
  pub ttl : Duration

module _ {C : Type 0} (store : Store C) where
  -- `Idempotent.Insert`
  unfoldable pub insert_once : Idempotent → String → String → Action C String Bool
  unfolding key
  insert_once i namespace k = store.set_nx (key ("idem" ∷ namespace ∷ k ∷ [])) "1" i.ttl

  -- `Idempotent.Has`
  unfoldable pub has_key : Idempotent → String → String → Action C String Bool
  unfolding key
  has_key i namespace k = do
    found ← store.get (key ("idem" ∷ namespace ∷ k ∷ []))
    pure (elim found [ some _ ↦ true | none ↦ false ])

pub record RateLimiter : Type 0 where
  pub limit : ℤ  -- int64
  pub window : Duration

-- `Allow`; `bucket` is the text of the window that the present instant is in.
unfoldable pub allow :
    {C : Type 0} → Store C → RateLimiter → String → String → Action C String (Bool × ℤ)
unfolding key
allow store r k bucket = do
  cnt ← store.incr_by (key ("rl" ∷ k ∷ bucket ∷ [])) (pos 1) (add64 r.window (pos second))
  pure (leb_ℤ cnt r.limit, cnt)
