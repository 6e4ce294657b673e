-- ===== src/ChatService.antt =====
-- The chat service, go/services/chat-svc/internal/service/service.go, over the in-process store. The
-- filter of sensitive words and the store of the limit are arguments.
pub mod Sending
pub mod Moderation
mod Tests
use Prim.Native.Char.{Char, code}
use yunmao.Base.{
  ℕ, suc, ◌+◌, ◌%◌, String, append, Bool, true, false, not, ◌&&◌, ◌||◌, Option, none, some, ltb,
  leb, nat_eq, if◌then◌else◌, ℤ, pos, add64, mul64, ltb_ℤ, leb_ℤ, codes, Fallible, returns, fails,
  Action, pure, fail, fail_if, ◌>>=◌, ◌>>◌, List, [], ◌∷◌, ◌++◌, ◌==◌, Time, Duration, second, ◌*◌,
  ◌/◌, format_instant, decimal_loop,
}
use yunmao.Errors.{
  GoError, app, new, system_internal, system_rate_limited, system_dependency_unavailable,
}
use yunmao.Cache.{Store}
use yunmao.FeatureFlags.{bytes}
use yunmao.EventBus.{Topic}
use yunmao.ChatStore.{
  Message, MemStore, StoreError, duplicate_id, not_found, error_text, store_insert, store_moderate,
  store_list,
}
use yunmao.ChatText.{
  is_space, trim_left, trim_right, trim_space, utf8_len, itoa, count_from, count_of,
}

-- What a filter says of a text: the clean text, whether it was flagged, and why.
abbrev pub SensitiveFilter : Type 0
SensitiveFilter = String → String × Bool × String

-- The data of an event.
pub data EventData : Type 0 where
  sent : Message → String → EventData
  moderated : String → String → String → EventData

-- A call of the publisher, whose error is dropped.
pub record ChatEvent : Type 0 where
  pub topic : Topic
  pub key : String
  pub source : String
  pub subject : String
  pub content : EventData

pub record ChatService (C : Type 0) : Type 0 where
  pub filter : SensitiveFilter
  pub rate : Option (Store C)
  pub rate_max : ℤ
  pub rate_win : Duration
  pub max_body : ℤ
  pub source : String
  pub publishes : Bool

-- The store, the store of the limit, and the calls of the publisher.
pub record World (C : Type 0) : Type 0 where
  pub messages : MemStore
  pub rate_state : C
  pub events : List ChatEvent

-- `if x == 0 { x = d }` on an int64
abbrev or_number : ℤ → ℤ → ℤ
or_number x d = if leb_ℤ x (pos 0) && leb_ℤ (pos 0) x then d else x

-- The defaults of `New`.
unfoldable pub new_service : {C : Type 0} → ChatService C → ChatService C
new_service c = record c {
  rate_max = or_number c.rate_max (pos 3);
  rate_win = or_number c.rate_win (pos (5 * second));
  max_body = or_number c.max_body (pos 256);
  source = if c.source == "" then "chat-svc@dev" else c.source;
}

pub record SendInput : Type 0 where
  pub user_id : String
  pub room_id : String
  pub body : String
  pub emojis : List String
  pub client_msg_id : String

unfoldable pub valid_moderation_status : String → Bool
valid_moderation_status s =
    s == "pending"
    || s == "published"
    || s == "hidden"
    || s == "deleted"
    || s == "flagged"
    || s == "recall"
    || s == "warn"
    || s == "mute"

unfoldable pub limit_of : ℤ → ℕ
limit_of (pos n) = if nat_eq n 0 || ltb 200 n then 50 else n
limit_of _ = 50

module _ {C : Type 0} where
  unfoldable pub allowed : Store C → ChatService C → String → String → Action C String Bool
  unfolding count_of itoa add64
  allowed store s user room = do
    let key = append "chat:rl:" (append room (append ":" user))
    val ← store.get key
    if leb_ℤ s.rate_max (count_of val)
        then pure false
        else (do _ ← store.set key (itoa (add64 (count_of val) (pos 1))) s.rate_win; pure true)

  unfoldable pub check_rate : ChatService C → SendInput → Action (World C) GoError (Unit {0})
  unfolding allowed new
  check_rate s i w = elim s.rate [
    | none ↦ (returns tt, w)
    | some store ↦
        let (r, c) = allowed store s i.user_id i.room_id w.rate_state in
        let w' = record w { rate_state = c } in
        elim r [
          | fails e ↦ (fails (app (new system_dependency_unavailable (append "ratelimit: " e))), w')
          | returns ok ↦
              if ok
              then (returns tt, w')
              else (fails (app (new system_rate_limited "rate limited")), w')
        ]
  ]

  unfoldable pub check_body : ChatService C → SendInput → Fallible GoError String
  unfolding trim_space utf8_len new
  check_body s i =
      let body = trim_space i.body in
      if i.user_id == "" || i.room_id == ""
      then fails (app (new system_internal "user_id and room_id required"))
      else if body == ""
      then fails (app (new system_internal "body empty"))
      else if ltb_ℤ s.max_body (pos (utf8_len body))
      then fails (app (new system_internal "body too long"))
      else returns body

  unfoldable pub new_message : ChatService C → SendInput → String → String → Time → Message
  new_message s i body id now =
      let (clean, flagged, reason) = s.filter body in
      record {
        id = id;
        user_id = i.user_id;
        room_id = i.room_id;
        body = clean;
        emojis = i.emojis;
        moderation_status = if flagged then "flagged" else "published";
        moderation_reason = reason;
        client_msg_id = i.client_msg_id;
        created_at = now;
      }

  -- time.RFC3339 shows whole seconds.
  unfoldable pub sent_event : ChatService C → Message → ChatEvent
  unfolding format_instant
  sent_event s m = record {
    topic = "room.chat.message";
    key = m.room_id;
    source = s.source;
    subject = m.id;
    content = sent m (format_instant (m.created_at / second * second));
  }

  unfoldable pub publish : ChatService C → ChatEvent → World C → World C
  publish s e w = if s.publishes then record w { events = w.events ++ e ∷ [] } else w

  unfoldable pub store_and_publish : ChatService C → Message → Action (World C) GoError Message
  unfolding publish sent_event store_insert error_text new
  store_and_publish s m w =
      let (r, ms) = store_insert m w.messages in
      elim r [
        | fails e ↦ (fails (app (new system_internal (append "store: " (error_text e)))), w)
        | returns out ↦ (returns out, publish s (sent_event s out) (record w { messages = ms }))
      ]

  -- `id` is what ids.New returns.
  unfoldable pub send : ChatService C → SendInput → String → Time → Action (World C) GoError Message
  unfolding check_body check_rate new_message store_and_publish
  send s i id now w = elim (check_body s i) [
    | fails e ↦ (fails e, w)
    | returns body ↦ (check_rate s i >>= λ _. store_and_publish s (new_message s i body id now)) w
  ]

  unfoldable pub moderate :
      ChatService C → String → String → String → Action (World C) GoError Message
  unfolding valid_moderation_status store_moderate publish error_text new
  moderate s id status reason w =
      if not (valid_moderation_status status)
      then (fails (app (new system_internal "invalid moderation status")), w)
      else (let (r, ms) = store_moderate id status reason w.messages in
          elim r [
            | fails not_found ↦ (fails (app (new system_internal "message not found")), w)
            | fails duplicate_id ↦ (
              fails (app (new system_internal (append "moderate: " (error_text duplicate_id)))),
              w,
            )
            | returns out ↦ (
              returns out,
              publish s
                  (record {
                    topic = "room.chat.moderation";
                    key = out.room_id;
                    source = s.source;
                    subject = id;
                    content = moderated id status reason;
                  })
                  (record w { messages = ms }),
            )
          ])

  unfoldable pub list : String → ℤ → World C → List Message
  unfolding limit_of store_list
  list room limit w = store_list room (limit_of limit) w.messages
