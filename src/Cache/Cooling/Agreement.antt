-- ===== src/Cache/Cooling/Agreement.antt =====
-- Where the dry run of the limiter and its count agree, and where they do not.
use yunmao.Base.{
  if_true, ◌<◌, ◌≡◌, String, true, Option, none, some, ltb, if◌then◌else◌, arith, pos, Fallible,
  returns, Action, Time, two32, ◌∙◌, ap, ◌>>=◌, pure, sub_time, Duration, ◌⊎◌, inl, inr, ◌≤◌, refl,
  parse_instant,
}
use yunmao.Cache.{Store}
use yunmao.Cache.Cooling.{
  Cooldown, Portion, Outcome, ok, blocked_room, blocked_user, blocked_daily, room_key, user_key,
  day_key, check, check_user, check_daily, record_portion, consume, consume_user, consume_daily,
  exceeds, exceeds_found, blocks_until, or_empty,
}

-- The text of a cooldown does not hold any more: there is none, it is empty, or its instant is not
-- later than now.
abbrev pub IsOver : Time → Option String → Type 0
IsOver now none = Unit {0}
IsOver now (some v) = (v ≡ "") ⊎ (parse_instant v ≤ now)

blocks_until-IsOver : (now : Time) (v : Option String) → IsOver now v → blocks_until now v ≡ none
unfolding blocks_until
blocks_until-IsOver now none h = refl
blocks_until-IsOver now (some v) (inl e) = rw e refl
blocks_until-IsOver now (some v) (inr old) = ground arith

module _ {C : Type 0} (store : Store C) (c : Cooldown) (p : Portion) where
  -- What the store answers for the portion, from one state to the next: for the room and for the user
  -- a cooldown that is over, and for the day a text, if any.
  abbrev pub IsCool : Time → Option String → C → C → Type 0
  IsCool now v s s' =
      (room : Option String) × (user : Option String) × (s1 : C) × (s2 : C) × (store.get
          (room_key p) s
        ≡ (returns room, s1))
      × IsOver now room
      × (store.get (user_key p) s1 ≡ (returns user, s2))
      × IsOver now user
      × (store.get (day_key p now) s2 ≡ (returns v, s'))

  check_daily_cool :
      (now : Time) (v : Option String) (s s' : C)
      → store.get (day_key p now) s ≡ (returns v, s')
      → 0 < c.daily_limit_gram
      → check_daily store c p now s
        ≡ (returns (if exceeds_found c p v then blocked_daily else ok, pos 0), s')
  unfolding check_daily
  check_daily_cool now v s s' d h =
      ap (λ (m : Action C String (Outcome × Duration)). m s)
        (if_true (ltb 0 c.daily_limit_gram) _ _ (ground arith))
      ∙ ap
          (λ (x : Fallible String (Option String) × C).
            ((λ u. x) >>= λ w. pure (if exceeds_found c p w then blocked_daily else ok, pos 0)) s)
          d

  consume_daily_cool :
      (now later : Time) (v : Option String) (s s' : C)
      → store.get (day_key p now) s ≡ (returns v, s')
      → 0 < c.daily_limit_gram
      → exceeds c p (or_empty v) ≡ true
      → consume_daily store c p now later s ≡ (returns blocked_daily, s')
  unfolding consume_daily
  consume_daily_cool now later v s s' d h e =
      ap (λ (m : Action C String Outcome). m s)
        (if_true (ltb 0 c.daily_limit_gram) _ _ (ground arith))
      ∙ ap
          (λ (x : Fallible String (Option String) × C).
            ((λ u. x) >>= λ w.
            if exceeds c p (or_empty w)
            then pure blocked_daily
            else record_portion store c p now later)
              s)
          d
      ∙ ap (λ (m : Action C String Outcome). m s') (if_true (exceeds c p (or_empty v)) _ _ e)

  check_cool :
      (now : Time) (v : Option String) (s s' : C)
      → IsCool now v s s'
      → 0 < c.daily_limit_gram
      → check store c p now s
        ≡ (returns (if exceeds_found c p v then blocked_daily else ok, pos 0), s')
  unfolding check check_user
  check_cool now v s s' (room, user, s1, s2, a, over, b, over', d) h =
      ap
        (λ (x : Fallible String (Option String) × C).
          ((λ u. x) >>= λ w. elim (blocks_until now w) [
            | some ts ↦ pure (blocked_room, sub_time ts now)
            | none ↦ check_user store c p now
          ])
            s)
        a
      ∙ ap
          (λ (x : Option Time).
            let m : Action C String (Outcome × Duration) = elim x [
              | some ts ↦ pure (blocked_room, sub_time ts now)
              | none ↦ check_user store c p now
            ] in
            m s1)
          (blocks_until-IsOver now room over)
      ∙ ap
          (λ (x : Fallible String (Option String) × C).
            ((λ u. x) >>= λ w. elim (blocks_until now w) [
              | some ts ↦ pure (blocked_user, sub_time ts now)
              | none ↦ check_daily store c p now
            ])
              s1)
          b
      ∙ ap
          (λ (x : Option Time).
            let m : Action C String (Outcome × Duration) = elim x [
              | some ts ↦ pure (blocked_user, sub_time ts now)
              | none ↦ check_daily store c p now
            ] in
            m s2)
          (blocks_until-IsOver now user over')
      ∙ check_daily_cool now v s2 s' d h

  consume_cool :
      (now later : Time) (v : Option String) (s s' : C)
      → IsCool now v s s'
      → 0 < c.daily_limit_gram
      → exceeds c p (or_empty v) ≡ true
      → consume store c p now later s ≡ (returns blocked_daily, s')
  unfolding consume consume_user
  consume_cool now later v s s' (room, user, s1, s2, a, over, b, over', d) h e =
      ap
        (λ (x : Fallible String (Option String) × C).
          ((λ u. x) >>= λ w. elim (blocks_until now w) [
            | some ts ↦ pure blocked_room
            | none ↦ consume_user store c p now later
          ])
            s)
        a
      ∙ ap
          (λ (x : Option Time).
            let m : Action C String Outcome = elim x [
              | some ts ↦ pure blocked_room
              | none ↦ consume_user store c p now later
            ] in
            m s1)
          (blocks_until-IsOver now room over)
      ∙ ap
          (λ (x : Fallible String (Option String) × C).
            ((λ u. x) >>= λ w. elim (blocks_until now w) [
              | some ts ↦ pure blocked_user
              | none ↦ consume_daily store c p now later
            ])
              s1)
          b
      ∙ ap
          (λ (x : Option Time).
            let m : Action C String Outcome = elim x [
              | some ts ↦ pure blocked_user
              | none ↦ consume_daily store c p now later
            ] in
            m s2)
          (blocks_until-IsOver now user over')
      ∙ consume_daily_cool now later v s2 s' d h e

  empty_exceeds :
      c.daily_limit_gram < p.amount_gram
      → p.amount_gram < two32
      → exceeds c p (or_empty none) ≡ true
  unfolding exceeds or_empty
  empty_exceeds big small = ground arith

  -- On a day without a count, a portion above a positive daily ration passes the dry run and is then
  -- blocked by the count itself, if the reads of the store succeed, the cooldowns that they find for
  -- the room and the user are missing, empty or over, and the amount is a uint32. The store is then as
  -- the reads leave it.
  pub check-consume :
      (now later : Time) (s s' : C)
      → IsCool now none s s'
      → 0 < c.daily_limit_gram
      → c.daily_limit_gram < p.amount_gram
      → p.amount_gram < two32
      → (check store c p now s ≡ (returns (ok, pos 0), s'))
        × (consume store c p now later s ≡ (returns blocked_daily, s'))
  unfolding exceeds_found exceeds
  check-consume now later s s' cool h big small = (
    check_cool now none s s' cool h,
    consume_cool now later none s s' cool h (empty_exceeds big small),
  )
