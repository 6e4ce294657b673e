-- ===== src/FeedingService/Frame.antt =====
-- What the tests of Create leave as it was.
use yunmao.Base.{
  ◌≡◌, refl, ◌∙◌, String, Bool, Option, some, none, Fallible, returns, fails, Action, ◌>>=◌,
  fail_if, arith,
}
use yunmao.Errors.{AppError, Code, system_dependency_unavailable}
use yunmao.FeedingSafety
use yunmao.Cache.{insert_once}
use yunmao.FeedingService.{Room, Deps, Flags, FeedingService, in_cache}
use yunmao.FeedingService.Create.{
  open_room, resolved, pass_limiter, claim_key, check_flags, check_qps,
}
use yunmao.FeedingService.Admission.{CreateInput, Draws, or_error, fail_with}

-- What Create does not write before it stores its request, billing aside.
abbrev pub SameCore : {C B : Type 0} → FeedingService C B → FeedingService C B → Type 0
SameCore s t =
    (t.requests ≡ s.requests)
    × (t.receipts ≡ s.receipts)
    × (t.rooms ≡ s.rooms)
    × (t.events ≡ s.events)

abbrev pub SameBills : {C B : Type 0} → FeedingService C B → FeedingService C B → Type 0
SameBills s t = SameCore s t × (t.billed ≡ s.billed)

module _ {C B : Type 0} where
  abbrev pub Keeps : {E A : Type 0} → Action (FeedingService C B) E A → Type 0
  Keeps m = (s : FeedingService C B) → SameBills s (m s).1

  pub SameBills-trans : (s t u : FeedingService C B) → SameBills s t → SameBills t u → SameBills s u
  SameBills-trans s t u ((a, b, c, d), e) ((a', b', c', d'), e') =
      ((a' ∙ a, b' ∙ b, c' ∙ c, d' ∙ d), e' ∙ e)

  bound :
      {E A A' : Type 0} (f : A → Action (FeedingService C B) E A') (h : (a : A) → Keeps (f a))
      (s : FeedingService C B) (r : Fallible E A) (t : FeedingService C B)
      → SameBills s t
      → SameBills s (((λ u. (r, t)) >>= f) s).1
  bound f h s (returns a) t k = SameBills-trans s t (f a t).1 k (h a t)
  bound f h s (fails e) t k = k

  Keeps-bind :
      {E A A' : Type 0} (m : Action (FeedingService C B) E A)
      (f : A → Action (FeedingService C B) E A')
      → Keeps m
      → ((a : A) → Keeps (f a))
      → Keeps (m >>= f)
  Keeps-bind m f k h s = bound f h s (m s).0 (m s).1 (k s)

  pub Keeps-fail_if : {E : Type 0} (c : Bool) (e : E) → Keeps (fail_if c e)
  Keeps-fail_if c e s = ((refl, refl, refl, refl), refl)

  Keeps-fail_with : (e : Option AppError) → Keeps (fail_with e)
  Keeps-fail_with none s = ((refl, refl, refl, refl), refl)
  Keeps-fail_with (some e) s = ((refl, refl, refl, refl), refl)

  or_error_keeps :
      {A : Type 0} (code : Code) (prefix : String) (s : FeedingService C B) (r : Fallible String A)
      (t : FeedingService C B)
      → SameBills s t
      → SameBills s (or_error code prefix (r, t)).1
  or_error_keeps code prefix s (returns a) t k = k
  or_error_keeps code prefix s (fails e) t k = k

  Keeps-in_cache :
      {A : Type 0} (code : Code) (prefix : String) (m : Action C String A)
      → Keeps (λ s. or_error code prefix (in_cache m s))
  Keeps-in_cache code prefix m s =
      or_error_keeps code prefix s (m s.cache).0 _ ((refl, refl, refl, refl), refl)

module _ {C B : Type 0} (d : Deps C B) (input : CreateInput) (draws : Draws) where
  pub pass_limiter-Keeps :
      (room : Room) (l : FeedingSafety.Limits) → Keeps (pass_limiter d input draws room l)
  unfolding pass_limiter
  pass_limiter-Keeps room l s =
      ((ground arith, ground arith, ground arith, ground arith), ground arith)

  pub check_flags-Keeps : (f : Option Flags) → Keeps (check_flags d input draws f)
  unfolding check_flags check_qps
  check_flags-Keeps none s = ((refl, refl, refl, refl), refl)
  check_flags-Keeps (some f) s =
      ((ground arith, ground arith, ground arith, ground arith), ground arith)

  pub resolved-Keeps : (r : FeedingSafety.Resolved) → Keeps (resolved d input draws r)
  unfolding resolved
  resolved-Keeps (FeedingSafety.ok l) s = ((refl, refl, refl, refl), refl)
  resolved-Keeps (FeedingSafety.err e) s = ((refl, refl, refl, refl), refl)

  pub open_room-Keeps : Keeps (open_room d input draws)
  unfolding open_room
  open_room-Keeps s = ((ground arith, ground arith, ground arith, ground arith), ground arith)

  pub claim_key-Keeps : Keeps (claim_key d input draws)
  unfolding claim_key
  claim_key-Keeps =
      Keeps-in_cache system_dependency_unavailable "idem check: "
        (insert_once d.store d.idem "feed" input.idempotency_key)
