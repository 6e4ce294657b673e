-- ===== src/RoomService/Subscription/Granting.antt =====
-- Who gets a subscription, and for what.
use mathlib.Core.Path.{subst}
use yunmao.Base.{
  String, append, ◌≡◌, ◌≢◌, refl, sym, arith, inl, inr, ◌⊎◌, Bool, true, false, ◌&&◌, some,
  Bool-cases, Option-cases, if◌then◌else◌, Fallible, returns, fails, ◌==◌, Time, add_time, eq_of_==,
  ne_of_==, eq_iff,
}
use yunmao.Errors.{
  GoError, app, plain, new, system_internal, auth_login_required, auth_token_expired,
}
use yunmao.AuthJwt.{KeyProvider, Claims, parse, sign_room_subscription}
use yunmao.RoomStore.{MemoryStore}
use yunmao.RoomService.{RoomService, Room, get}
use yunmao.RoomService.Subscription.{
  SubscriptionRequest, SubscriptionResponse, identity, subscribe_to, issue_subscription,
}

Fallible-cases :
    {E A : Type 0} (r : Fallible E A) → ((e : E) × (r ≡ fails e)) ⊎ ((a : A) × (r ≡ returns a))
Fallible-cases (fails e) = inl (e, refl)
Fallible-cases (returns a) = inr (a, refl)

module _ (s : RoomService) where
  -- Who is asking: the subject and the scope of a token that the verifier takes, or, without a token,
  -- a guest where guests are allowed.
  abbrev pub IsIdentity : String → Bool → String × String → Type 0
  IsIdentity token allow_guest who =
      ((token ≢ "")
        × ((kp : KeyProvider) × (c : Claims) × (s.ver ≡ some kp)
            × (parse s.jwt kp token ≡ returns c)
            × (who ≡ (c.subject, if c.scope == "" then "user" else c.scope))))
      ⊎ ((token ≡ "") × (allow_guest ≡ true) × (who ≡ ("guest", "guest")))

  identity-cases :
      (token : String) (allow_guest : Bool)
      → ((e : GoError) × (identity s token allow_guest ≡ fails e))
        ⊎ ((who : String × String) × (identity s token allow_guest ≡ returns who)
            × IsIdentity token allow_guest who)
  unfolding identity
  identity-cases token allow_guest = elim (Bool-cases (token == "")) [
    | inl e ↦ elim (Bool-cases allow_guest) [
      | inl y ↦ inr (("guest", "guest"), ground arith, inr (eq_of_== token "" e, y, refl))
      | inr n ↦ inl (app (new auth_login_required "login required"), ground arith)
    ]
    | inr full ↦ elim (Option-cases s.ver) [
      | inl e ↦ inl (plain "room-svc: verifier not configured", ground arith)
      | inr (kp, there) ↦ elim (Fallible-cases (parse s.jwt kp token)) [
        | inl (e, bad) ↦
            inl (app (new auth_token_expired (append "user token invalid: " e)), ground arith)
        | inr (c, good) ↦ inr (
          (c.subject, if c.scope == "" then "user" else c.scope),
          ground arith,
          inl (ne_of_== token "" full, (kp, c, there, good, refl)),
        )
      ]
    ]
  ]

  -- A subscription is for the room that was asked for, and its token is the signer's for that room and
  -- the one who asks; for a private room this is the owner of a token.
  abbrev pub Granted :
      SubscriptionRequest
      → Bool
      → Time
      → Time
      → MemoryStore
      → Fallible GoError SubscriptionResponse
      → Type 0
  Granted req allow_guest now later m (fails e) = Unit {0}
  Granted req allow_guest now later m (returns resp) =
      (who : String × String) × ((get s req.room_id m).0 ≡ returns resp.room)
      × IsIdentity req.user_token allow_guest who
      × ((resp.room.visibility ≡ "private") → (req.user_token ≢ ""))
      × (sign_room_subscription s.jwt s.signer who.0 who.1 resp.room.id s.aud s.ttl now
          ≡ returns resp.token)
      × (resp.expires_at ≡ add_time later s.ttl)

  module _ (req : SubscriptionRequest) (allow_guest : Bool) (now later : Time)
      (m : MemoryStore) where
    Granted-via :
        (r q : Fallible GoError SubscriptionResponse)
        → r ≡ q
        → Granted req allow_guest now later m q
        → Granted req allow_guest now later m r
    Granted-via r q e h = subst (λ x. Granted req allow_guest now later m x) (sym e) h

    closed :
        (room : Room)
        → (room.visibility == "private" && req.user_token == "") ≡ true
        → subscribe_to s req allow_guest now later room
          ≡ fails (app (new auth_login_required "private room requires login"))
    unfolding subscribe_to
    closed room h = ground arith

    unknown :
        (room : Room) (e : GoError)
        → (room.visibility == "private" && req.user_token == "") ≡ false
        → identity s req.user_token allow_guest ≡ fails e
        → subscribe_to s req allow_guest now later room ≡ fails e
    unfolding subscribe_to
    unknown room e h q = ground arith

    unsigned :
        (room : Room) (who : String × String) (e : String)
        → (room.visibility == "private" && req.user_token == "") ≡ false
        → identity s req.user_token allow_guest ≡ returns who
        → sign_room_subscription s.jwt s.signer who.0 who.1 room.id s.aud s.ttl now ≡ fails e
        → subscribe_to s req allow_guest now later room
          ≡ fails (app (new system_internal (append "sign jwt: " e)))
    unfolding subscribe_to
    unsigned room who e h q k = ground arith

    signed :
        (room : Room) (who : String × String) (token : String)
        → (room.visibility == "private" && req.user_token == "") ≡ false
        → identity s req.user_token allow_guest ≡ returns who
        → sign_room_subscription s.jwt s.signer who.0 who.1 room.id s.aud s.ttl now ≡ returns token
        → subscribe_to s req allow_guest now later room
          ≡ returns (record { token = token; expires_at = add_time later s.ttl; room = room })
    unfolding subscribe_to
    signed room who token h q k = ground arith

    open_to :
        (room : Room)
        → (room.visibility == "private" && req.user_token == "") ≡ false
        → room.visibility ≡ "private"
        → req.user_token ≢ ""
    open_to room h v e =
        ground (arith, v, e, eq_iff room.visibility "private", eq_iff req.user_token "")

    subscribe_to-Granted :
        (room : Room)
        → (get s req.room_id m).0 ≡ returns room
        → Granted req allow_guest now later m (subscribe_to s req allow_guest now later room)
    subscribe_to-Granted room found =
        elim (Bool-cases (room.visibility == "private" && req.user_token == "")) [
          | inl h ↦ Granted-via _ _ (closed room h) tt
          | inr h ↦ elim (identity-cases req.user_token allow_guest) [
            | inl (e, q) ↦ Granted-via _ _ (unknown room e h q) tt
            | inr (who, q, is) ↦
                elim (Fallible-cases
                  (sign_room_subscription s.jwt s.signer who.0 who.1 room.id s.aud s.ttl now)) [
                    | inl (e, k) ↦ Granted-via _ _ (unsigned room who e h q k) tt
                    | inr (token, k) ↦
                        Granted-via _ _ (signed room who token h q k)
                          (who, found, is, open_to room h, k, refl)
                  ]
          ]
        ]

    -- A subscription that is issued is for the room that was asked for, and its token is the signer's
    -- for that room, with the subject and the scope of a token that the verifier takes, or, without a
    -- token and where guests are allowed, of a guest; for a private room there was a token.
    pub issue_subscription-Granted :
        Granted req allow_guest now later m (issue_subscription s req allow_guest now later m)
    unfolding issue_subscription
    issue_subscription-Granted = elim (Fallible-cases (get s req.room_id m).0) [
      | inl (e, h) ↦ Granted-via _ (fails e) (ground arith) tt
      | inr (room, h) ↦
          Granted-via _ (subscribe_to s req allow_guest now later room) (ground arith)
            (subscribe_to-Granted room h)
    ]
