-- ===== src/UserService/Again.antt =====
-- Two logins of one phone give one user.
use mathlib.Core.Path.{subst}
use yunmao.Base.{
  String, ◌≡◌, ◌≢◌, sym, ap, ◌∙◌, arith, inl, inr, some, returns, lookup, lookup-insert_self, Time,
  ==_of_ne,
}
use yunmao.UserService.{
  User, UserService, SmsChallenge, World, Clocks, MemoryStore, upsert, new_user, complete_sms_login,
}
use yunmao.UserService.Login.{Registered, complete_sms_login-LoggedIn}
use yunmao.UserService.Binding.{Reaches, Reaches-Bound}

-- The user that a login gives is the one that its phone has from then on.
Registered-Bound :
    (s : UserService) (new_id ph : String) (made : Time) (u : User) (m m' : MemoryStore)
    → Registered s new_id ph made u m m'
    → ph ≢ ""
    → new_id ≢ ""
    → lookup ph m'.by_ph ≡ some u
unfolding upsert new_user
Registered-Bound s new_id ph made u m m' (inl (there, same)) full full' = rw same there
Registered-Bound s new_id ph made u m m' (inr (free, is, stored)) full full' =
    rw (stored ∙ ap (λ x. (upsert x m).1) is) (
      rw (==_of_ne new_id "" full') (
        rw (==_of_ne ph "" full)
          (lookup-insert_self ph (new_user new_id ph made) m.by_ph ∙ ap some (sym is))))

-- Two logins of one phone, with any calls in between, give the same user, if the number that a new
-- user gets and the hash of the phone are not empty.
pub complete_sms_login-again :
    (s : UserService) (challenge code new_id challenge' code' new_id' : String) (t t' : Clocks)
    (w w' : World) (ch ch' : SmsChallenge) (u u' : User) (token token' : String)
    → (complete_sms_login s challenge code new_id t w).0 ≡ returns (u, token)
    → Reaches s (complete_sms_login s challenge code new_id t w).1 w'
    → (complete_sms_login s challenge' code' new_id' t' w').0 ≡ returns (u', token')
    → lookup challenge w.challenges ≡ some ch
    → lookup challenge' w'.challenges ≡ some ch'
    → ch'.phone_hash ≡ ch.phone_hash
    → ch.phone_hash ≢ ""
    → new_id ≢ ""
    → u' ≡ u
complete_sms_login-again s challenge code new_id challenge' code' new_id' t t' w w' ch ch' u u'
      token token' first calls second there there' phone full full' =
    let (c, found, _, _, _, _, reg) =
      complete_sms_login-LoggedIn s challenge code new_id t w u token first in
    let (c', found', _, _, _, _, reg') =
      complete_sms_login-LoggedIn s challenge' code' new_id' t' w' u' token' second in
    let same : c ≡ ch = ground (arith, sym found ∙ there) in
    let same' : c' ≡ ch' = ground (arith, sym found' ∙ there') in
    let number = ap (λ x. x.phone_hash) same in
    let number' = ap (λ x. x.phone_hash) same' ∙ phone in
    let bound =
      Reaches-Bound s ch.phone_hash u
        (subst
          (λ q. lookup q (complete_sms_login s challenge code new_id t w).1.users.by_ph ≡ some u)
          number
          (Registered-Bound s new_id c.phone_hash t.made u w.users _ reg
            (λ e. full (sym number ∙ e)) full'))
        calls in
    second_user bound (
      subst
        (λ q.
          Registered s new_id' q t'.made u' w'.users
            (complete_sms_login s challenge' code' new_id' t' w').1.users)
        number' reg')
  where
    second_user :
        {m' : MemoryStore}
        → lookup ch.phone_hash w'.users.by_ph ≡ some u
        → Registered s new_id' ch.phone_hash t'.made u' w'.users m'
        → u' ≡ u
    second_user b (inl (has, _)) = ground (arith, sym has ∙ b)
    second_user b (inr (free, _, _)) = cc (sym free ∙ b)
