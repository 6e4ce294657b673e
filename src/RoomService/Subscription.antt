-- ===== src/RoomService/Subscription.antt =====
-- Subscriptions of rooms, IssueSubscription of go/services/room-svc/internal/service/service.go.
pub mod Granting
use yunmao.Base.{
  String, append, Bool, ◌&&◌, Option, none, some, if◌then◌else◌, Fallible, returns, fails, ◌==◌,
  Time, add_time,
}
use yunmao.Errors.{
  GoError, app, plain, new, system_internal, auth_login_required, auth_token_expired,
}
use yunmao.AuthJwt.{parse, sign_room_subscription}
use yunmao.RoomStore.{MemoryStore}
use yunmao.RoomService.{RoomService, Room, get}

pub record SubscriptionRequest : Type 0 where
  pub room_id : String
  pub user_token : String

pub record SubscriptionResponse : Type 0 where
  pub token : String
  pub expires_at : Time
  pub room : Room

-- Who asks, as a subject and a scope.
unfoldable pub identity : RoomService → String → Bool → Fallible GoError (String × String)
unfolding parse new
identity s token allow_guest =
    if token == ""
    then if allow_guest
      then returns ("guest", "guest")
      else fails (app (new auth_login_required "login required"))
    else elim s.ver [
      | none ↦ fails (plain "room-svc: verifier not configured")
      | some kp ↦ elim (parse s.jwt kp token) [
        | fails e ↦ fails (app (new auth_token_expired (append "user token invalid: " e)))
        | returns c ↦ returns (c.subject, if c.scope == "" then "user" else c.scope)
      ]
    ]

-- A subscription for a room that was read; `now` is the clock of the signer, `later` the one that the
-- response reads.
unfoldable pub subscribe_to :
    RoomService
    → SubscriptionRequest
    → Bool
    → Time
    → Time
    → Room
    → Fallible GoError SubscriptionResponse
unfolding identity sign_room_subscription add_time new
subscribe_to s req allow_guest now later room =
    if room.visibility == "private" && req.user_token == ""
    then fails (app (new auth_login_required "private room requires login"))
    else elim (identity s req.user_token allow_guest) [
      | fails e ↦ fails e
      | returns who ↦
          elim (sign_room_subscription s.jwt s.signer who.0 who.1 room.id s.aud s.ttl now) [
            | fails e ↦ fails (app (new system_internal (append "sign jwt: " e)))
            | returns token ↦
                returns (record { token = token; expires_at = add_time later s.ttl; room = room })
          ]
    ]

unfoldable pub issue_subscription :
    RoomService
    → SubscriptionRequest
    → Bool
    → Time
    → Time
    → MemoryStore
    → Fallible GoError SubscriptionResponse
unfolding get subscribe_to
issue_subscription s req allow_guest now later m = elim (get s req.room_id m).0 [
  | fails e ↦ fails e
  | returns room ↦ subscribe_to s req allow_guest now later room
]
