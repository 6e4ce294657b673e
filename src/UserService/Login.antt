-- ===== src/UserService/Login.antt =====
-- What a login by a code does, and that a code is used once.
use mathlib.Core.Path.{subst}
use yunmao.Base.{
  String, ◌≡◌, sym, ap, ◌∙◌, arith, inl, inr, ◌⊎◌, true, false, none, some, Bool-cases,
  Option-cases, Fallible, returns, fails, ◌==◌, lookup, erase, Time, after, eq_of_==,
}
use yunmao.Errors.{GoError, app, new, auth_login_required, auth_token_expired}
use yunmao.AuthJwt.{sign_login}
use yunmao.UserService.{
  User, UserService, SmsChallenge, World, Clocks, MemoryStore, get_in, upsert, signed_in, sign_up,
  new_user, login_phone, complete_sms_login,
}

module _ (s : UserService) where
  -- The token is a login of the user, and the users are as before.
  abbrev pub TokenFor : User → String → Time → Type 0
  TokenFor u token now =
      sign_login s.jwt s.signer u.id "user" s.audience s.token_ttl now ≡ returns token

  pub signed_in-world : (u : User) (now : Time) (w : World) → (signed_in s u now w).1 ≡ w
  unfolding signed_in
  signed_in-world u now w = ground arith

  signed_in-TokenFor :
      (u x : User) (token : String) (now : Time) (w : World)
      → (signed_in s u now w).0 ≡ returns (x, token)
      → (x ≡ u) × TokenFor u token now
  unfolding signed_in
  signed_in-TokenFor u x token now w h = (ground arith, ground arith)

  pub sign_up-world :
      (u : User) (now : Time) (w : World)
      → (sign_up s u now w).1 ≡ record w { users = (upsert u w.users).1 }
  unfolding sign_up upsert signed_in
  sign_up-world u now w = ground arith

  sign_up-TokenFor :
      (u x : User) (token : String) (now : Time) (w : World)
      → (sign_up s u now w).0 ≡ returns (x, token)
      → (x ≡ u) × TokenFor u token now
  unfolding sign_up upsert
  sign_up-TokenFor u x token now w h = elim (Bool-cases (u.id == "")) [
    | inl e ↦ absurd (ground arith)
    | inr n ↦
        signed_in-TokenFor u x token now (record w { users = (upsert u w.users).1 }) (ground arith)
  ]

  pub login_phone_old :
      (ph new_id : String) (t : Clocks) (w : World) (u : User)
      → lookup ph w.users.by_ph ≡ some u
      → login_phone s ph new_id t w ≡ signed_in s u t.signed w
  unfolding login_phone get_in
  login_phone_old ph new_id t w u h = ground arith

  pub login_phone_new :
      (ph new_id : String) (t : Clocks) (w : World)
      → lookup ph w.users.by_ph ≡ none
      → login_phone s ph new_id t w ≡ sign_up s (new_user new_id ph t.made) t.signed w
  unfolding login_phone get_in
  login_phone_new ph new_id t w h = ground arith

  -- The user of a phone: the one it had, or a new one.
  abbrev pub Registered : String → String → Time → User → MemoryStore → MemoryStore → Type 0
  Registered new_id ph made u m m' =
      ((lookup ph m.by_ph ≡ some u) × (m' ≡ m))
      ⊎ ((lookup ph m.by_ph ≡ none) × (u ≡ new_user new_id ph made) × (m' ≡ (upsert u m).1))

  login_phone-Registered :
      (ph new_id : String) (t : Clocks) (w : World) (u : User) (token : String)
      → (login_phone s ph new_id t w).0 ≡ returns (u, token)
      → TokenFor u token t.signed
        × ((login_phone s ph new_id t w).1.challenges ≡ w.challenges)
        × Registered new_id ph t.made u w.users (login_phone s ph new_id t w).1.users
  login_phone-Registered ph new_id t w u token h = elim (Option-cases (lookup ph w.users.by_ph)) [
    | inr (old, there) ↦
        let e = login_phone_old ph new_id t w old there in
        let world = ap (λ r. r.1) e ∙ signed_in-world old t.signed w in
        let (same, signed) =
          signed_in-TokenFor old u token t.signed w (sym (ap (λ r. r.0) e) ∙ h) in
        (
          subst (λ x. TokenFor x token t.signed) (sym same) signed,
          ap (λ x. x.challenges) world,
          inl (there ∙ ap some (sym same), ap (λ x. x.users) world),
        )
    | inl new ↦
        let x = new_user new_id ph t.made in
        let e = login_phone_new ph new_id t w new in
        let world = ap (λ r. r.1) e ∙ sign_up-world x t.signed w in
        let (same, signed) = sign_up-TokenFor x u token t.signed w (sym (ap (λ r. r.0) e) ∙ h) in
        (
          subst (λ y. TokenFor y token t.signed) (sym same) signed,
          ap (λ y. y.challenges) world,
          inr (new, same, ap (λ y. y.users) world ∙ ap (λ y. (upsert y w.users).1) (sym same)),
        )
  ]

  abbrev pub used : String → World → World
  used challenge w = record w { challenges = erase challenge w.challenges }

  pub complete_missing :
      (challenge code new_id : String) (t : Clocks) (w : World)
      → lookup challenge w.challenges ≡ none
      → complete_sms_login s challenge code new_id t w
        ≡ (fails (app (new auth_login_required "challenge not found")), w)
  unfolding complete_sms_login
  complete_missing challenge code new_id t w h = ground arith

  pub complete_expired :
      (challenge code new_id : String) (t : Clocks) (w : World) (ch : SmsChallenge)
      → lookup challenge w.challenges ≡ some ch
      → after t.checked ch.expires_at ≡ true
      → complete_sms_login s challenge code new_id t w
        ≡ (fails (app (new auth_token_expired "challenge expired")), used challenge w)
  unfolding complete_sms_login
  complete_expired challenge code new_id t w ch h e = ground arith

  pub complete_wrong :
      (challenge code new_id : String) (t : Clocks) (w : World) (ch : SmsChallenge)
      → lookup challenge w.challenges ≡ some ch
      → after t.checked ch.expires_at ≡ false
      → (ch.code == code) ≡ false
      → complete_sms_login s challenge code new_id t w
        ≡ (fails (app (new auth_login_required "code mismatch")), w)
  unfolding complete_sms_login
  complete_wrong challenge code new_id t w ch h e q = ground arith

  pub complete_right :
      (challenge code new_id : String) (t : Clocks) (w : World) (ch : SmsChallenge)
      → lookup challenge w.challenges ≡ some ch
      → after t.checked ch.expires_at ≡ false
      → (ch.code == code) ≡ true
      → complete_sms_login s challenge code new_id t w
        ≡ login_phone s ch.phone_hash new_id t (used challenge w)
  unfolding complete_sms_login
  complete_right challenge code new_id t w ch h e q = ground arith

  abbrev pub LoggedIn : String → String → String → Clocks → World → User → String → World → Type 0
  LoggedIn challenge code new_id t w u token w' =
      (ch : SmsChallenge) × (lookup challenge w.challenges ≡ some ch)
      × (after t.checked ch.expires_at ≡ false)
      × (ch.code ≡ code)
      × (w'.challenges ≡ erase challenge w.challenges)
      × TokenFor u token t.signed
      × Registered new_id ch.phone_hash t.made u w.users w'.users

  -- Whoever logs in has named a challenge that is there and not past its expiry, with its code; the
  -- challenge is gone afterwards; the user is the one of the challenge's phone, who is made if there is
  -- none; and the token is a login of that user.
  pub complete_sms_login-LoggedIn :
      (challenge code new_id : String) (t : Clocks) (w : World) (u : User) (token : String)
      → (complete_sms_login s challenge code new_id t w).0 ≡ returns (u, token)
      → LoggedIn challenge code new_id t w u token
          (complete_sms_login s challenge code new_id t w).1
  complete_sms_login-LoggedIn challenge code new_id t w u token h =
      elim (Option-cases (lookup challenge w.challenges)) [
        | inl none_there ↦ absurd (
            refused
              (sym (ap (λ r. r.0) (complete_missing challenge code new_id t w none_there)) ∙ h))
        | inr (ch, there) ↦ elim (Bool-cases (after t.checked ch.expires_at)) [
          | inl late ↦ absurd (
              refused (
                sym (ap (λ r. r.0) (complete_expired challenge code new_id t w ch there late)) ∙ h))
          | inr early ↦ elim (Bool-cases (ch.code == code)) [
            | inr wrong ↦ absurd (
                refused (
                  sym
                    (ap (λ r. r.0) (complete_wrong challenge code new_id t w ch there early wrong))
                  ∙ h))
            | inl right ↦
                let e = complete_right challenge code new_id t w ch there early right in
                let (signed, cs, reg) =
                  login_phone-Registered ch.phone_hash new_id t (used challenge w) u token
                    (sym (ap (λ r. r.0) e) ∙ h) in
                (
                  ch,
                  there,
                  early,
                  eq_of_== ch.code code right,
                  ap (λ r. r.1.challenges) e ∙ cs,
                  signed,
                  subst (λ r. Registered new_id ch.phone_hash t.made u w.users r.1.users) (sym e)
                      reg,
                )
          ]
        ]
      ]
    where
      refused : {e : GoError} {a : User × String} → Fallible.fails e ≡ returns a → ⊥
      refused q = cc q
