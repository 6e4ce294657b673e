-- ===== src/UserService/Binding.antt =====
-- A phone keeps its user over any history of calls.
use mathlib.Core.Path.{subst}
use yunmao.Base.{
  ℕ, String, append, ◌≡◌, sym, arith, inl, inr, ◌⊎◌, true, false, ◌&&◌, none, some, Bool-cases,
  Option-cases, if◌then◌else◌, Fallible, fails, ◌==◌, lookup, lookup-insert, Time, after, eq_of_==,
  eq_iff,
}
use yunmao.Errors.{app, new, system_internal}
use yunmao.UserService.{
  User, UserService, World, Clocks, MemoryStore, upsert, signed_in, sign_up, new_user, login_phone,
  complete_sms_login, start_sms_login, dev_login, find_user, prefix,
}
use yunmao.UserService.Login.{
  signed_in-world, sign_up-world, login_phone_old, login_phone_new, complete_missing,
  complete_expired, complete_wrong, complete_right, used,
}

abbrev pub Bound : String → User → World → Type 0
Bound p u w = lookup p w.users.by_ph ≡ some u

-- A user whose phone is new takes no phone from another one.
upsert-by_ph :
    (p : String) (u x : User) (m : MemoryStore)
    → lookup p m.by_ph ≡ some u
    → ((x.phone_hash ≡ "") ⊎ (lookup x.phone_hash m.by_ph ≡ none))
    → lookup p (upsert x m).1.by_ph ≡ some u
unfolding upsert
upsert-by_ph p u x m h (inl e) = ground (arith, h, e, eq_iff x.phone_hash "")
upsert-by_ph p u x m h (inr e) =
    ground (arith, h, e, lookup-insert x.phone_hash p x m.by_ph, eq_iff x.phone_hash p)

module _ (s : UserService) where
  abbrev phone_of : String → String
  phone_of phone = if phone == "" then "" else s.hash_phone phone

  abbrev dev_user : String → String → String → Clocks → User
  dev_user id phone new_id t =
      let ph = phone_of phone in
      let uid = if id == "" then new_id else id in
      record {
        id = uid;
        nickname = append "yunmao_" (prefix 6 (if ph == "" then uid else ph));
        phone_hash = ph;
        role = "user";
        created_at = t.made;
      }

  module _ (id phone new_id : String) (t : Clocks) (w : World) where
    dev_refused :
        (id == "" && phone == "") ≡ true
        → dev_login s id phone new_id t w
          ≡ (fails (app (new system_internal "user_id or phone_e164 required")), w)
    unfolding dev_login
    dev_refused h = ground arith

    dev_found :
        (x : User)
        → (id == "" && phone == "") ≡ false
        → find_user id (phone_of phone) w.users ≡ some x
        → dev_login s id phone new_id t w ≡ signed_in s x t.signed w
    unfolding dev_login
    dev_found x h e = ground arith

    dev_new :
        (id == "" && phone == "") ≡ false
        → find_user id (phone_of phone) w.users ≡ none
        → dev_login s id phone new_id t w ≡ sign_up s (dev_user id phone new_id t) t.signed w
    unfolding dev_login
    dev_new h e = ground arith

module _ (s : UserService) (p : String) (u : User) where
  sign_up-Bound :
      (x : User) (now : Time) (w : World)
      → Bound p u w
      → ((x.phone_hash ≡ "") ⊎ (lookup x.phone_hash w.users.by_ph ≡ none))
      → Bound p u (sign_up s x now w).1
  sign_up-Bound x now w h free =
      subst (λ v. Bound p u v) (sym (sign_up-world s x now w)) (upsert-by_ph p u x w.users h free)

  signed_in-Bound :
      (x : User) (now : Time) (w : World) → Bound p u w → Bound p u (signed_in s x now w).1
  signed_in-Bound x now w h = subst (λ v. Bound p u v) (sym (signed_in-world s x now w)) h

  login_phone-Bound :
      (ph new_id : String) (t : Clocks) (w : World)
      → Bound p u w
      → Bound p u (login_phone s ph new_id t w).1
  unfolding new_user
  login_phone-Bound ph new_id t w h = elim (Option-cases (lookup ph w.users.by_ph)) [
    | inr (old, there) ↦
        subst (λ r. Bound p u r.1) (sym (login_phone_old s ph new_id t w old there))
          (signed_in-Bound old t.signed w h)
    | inl free ↦
        subst (λ r. Bound p u r.1) (sym (login_phone_new s ph new_id t w free))
          (sign_up-Bound (new_user new_id ph t.made) t.signed w h (inr free))
  ]

  complete_sms_login-Bound :
      (challenge code new_id : String) (t : Clocks) (w : World)
      → Bound p u w
      → Bound p u (complete_sms_login s challenge code new_id t w).1
  complete_sms_login-Bound challenge code new_id t w h =
      elim (Option-cases (lookup challenge w.challenges)) [
        | inl e ↦
            subst (λ r. Bound p u r.1) (sym (complete_missing s challenge code new_id t w e)) h
        | inr (ch, there) ↦ elim (Bool-cases (after t.checked ch.expires_at)) [
          | inl late ↦
              subst (λ r. Bound p u r.1)
                (sym (complete_expired s challenge code new_id t w ch there late)) h
          | inr early ↦ elim (Bool-cases (ch.code == code)) [
            | inr wrong ↦
                subst (λ r. Bound p u r.1)
                  (sym (complete_wrong s challenge code new_id t w ch there early wrong)) h
            | inl right ↦
                subst (λ r. Bound p u r.1)
                  (sym (complete_right s challenge code new_id t w ch there early right))
                  (login_phone-Bound ch.phone_hash new_id t (used s challenge w) h)
          ]
        ]
      ]

  start_sms_login-Bound :
      (phone : String) (buf : Fallible String (ℕ × ℕ × ℕ)) (session : String) (now : Time)
      (w : World)
      → Bound p u w
      → Bound p u (start_sms_login s phone buf session now w).1
  unfolding start_sms_login
  start_sms_login-Bound phone buf session now w h = ground (arith, h)

  find_user-free :
      (id ph : String) (m : MemoryStore)
      → find_user id ph m ≡ none
      → (ph ≡ "") ⊎ (lookup ph m.by_ph ≡ none)
  unfolding find_user
  find_user-free id ph m h = elim (Bool-cases (ph == "")) [
    | inl e ↦ inl (eq_of_== ph "" e)
    | inr n ↦ inr (ground arith)
  ]

  dev_login-Bound :
      (id phone new_id : String) (t : Clocks) (w : World)
      → Bound p u w
      → Bound p u (dev_login s id phone new_id t w).1
  dev_login-Bound id phone new_id t w h = elim (Bool-cases (id == "" && phone == "")) [
    | inl e ↦ subst (λ r. Bound p u r.1) (sym (dev_refused s id phone new_id t w e)) h
    | inr n ↦ elim (Option-cases (find_user id (phone_of s phone) w.users)) [
      | inr (x, found) ↦
          subst (λ r. Bound p u r.1) (sym (dev_found s id phone new_id t w x n found))
            (signed_in-Bound x t.signed w h)
      | inl free ↦
          subst (λ r. Bound p u r.1) (sym (dev_new s id phone new_id t w n free))
            (sign_up-Bound (dev_user s id phone new_id t) t.signed w h
              (find_user-free id (phone_of s phone) w.users free))
    ]
  ]

-- The worlds that calls lead to from one.
pub data Reaches (s : UserService) (w : World) : World → Type 0 where
  here : Reaches s w w
  starts :
      {w1 : World} (phone : String) (buf : Fallible String (ℕ × ℕ × ℕ)) (session : String)
      (now : Time)
      → Reaches s w w1
      → Reaches s w (start_sms_login s phone buf session now w1).1
  completes :
      {w1 : World} (challenge code new_id : String) (t : Clocks)
      → Reaches s w w1
      → Reaches s w (complete_sms_login s challenge code new_id t w1).1
  devs :
      {w1 : World} (id phone new_id : String) (t : Clocks)
      → Reaches s w w1
      → Reaches s w (dev_login s id phone new_id t w1).1

pub Reaches-Bound :
    (s : UserService) (p : String) (u : User) {w w' : World}
    → Bound p u w
    → Reaches s w w'
    → Bound p u w'
Reaches-Bound s p u h here = h
Reaches-Bound s p u h (starts phone buf session now r) =
    start_sms_login-Bound s p u phone buf session now _ (Reaches-Bound s p u h r)
Reaches-Bound s p u h (completes challenge code new_id t r) =
    complete_sms_login-Bound s p u challenge code new_id t _ (Reaches-Bound s p u h r)
Reaches-Bound s p u h (devs id phone new_id t r) =
    dev_login-Bound s p u id phone new_id t _ (Reaches-Bound s p u h r)
