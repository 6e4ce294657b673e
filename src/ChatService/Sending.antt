-- ===== src/ChatService/Sending.antt =====
-- What sending and moderating a message do on every branch, over any history of calls.
use mathlib.Core.Path.{subst}
use yunmao.Base.{
  String, append, ◌≡◌, ◌≢◌, refl, sym, ap, ◌∙◌, arith, ◌⊎◌, inl, inr, ◌||◌, none, some, Bool-cases,
  Option-cases, if◌then◌else◌, pos, ltb_ℤ, ◌≤ℤ◌, le_of_not_ltb_ℤ, Fallible, returns, fails, List,
  [], ◌∷◌, ◌++◌, ◌==◌, lookup, insert, Time, ne_of_==, Bool, ◌/◌, ◌*◌, second, format_instant,
}
use yunmao.Errors.{GoError, app, new, system_internal}
use yunmao.ChatStore.{Message, duplicate_id, error_text, store_insert}
use yunmao.ChatService.{
  ChatService, ChatEvent, sent, World, SendInput, check_body, check_rate, new_message, sent_event,
  publish, store_and_publish, send,
}
use yunmao.ChatText.{trim_space, utf8_len}

module _ {C : Type 0} (s : ChatService C) where
  -- The calls of the publisher after one more, if there is a publisher.
  abbrev pub with_event : ChatEvent → List ChatEvent → List ChatEvent
  with_event e es = if s.publishes then es ++ e ∷ [] else es

  -- The message that an input and the answer of the filter on its trimmed body make.
  abbrev pub message_of : SendInput → String × Bool × String → String → Time → Message
  message_of i (clean, flagged, reason) id now = record {
    id = id;
    user_id = i.user_id;
    room_id = i.room_id;
    body = clean;
    emojis = i.emojis;
    moderation_status = if flagged then "flagged" else "published";
    moderation_reason = reason;
    client_msg_id = i.client_msg_id;
    created_at = now;
  }

  -- The event about a message, with its time in whole seconds.
  abbrev pub event_of : Message → ChatEvent
  event_of m = record {
    topic = "room.chat.message";
    key = m.room_id;
    source = s.source;
    subject = m.id;
    content = sent m (format_instant (m.created_at / second * second));
  }

  abbrev pub Sent :
      SendInput → String → Time → World C → Fallible GoError Message → World C → Type 0
  Sent i id now w (fails e) w' = (w'.messages ≡ w.messages) × (w'.events ≡ w.events)
  Sent i id now w (returns m) w' =
      (m ≡ message_of i (s.filter (trim_space i.body)) id now)
      × (trim_space i.body ≢ "")
      × (pos (utf8_len (trim_space i.body)) ≤ℤ s.max_body)
      × (lookup id w.messages ≡ none)
      × (w'.messages ≡ insert id m w.messages)
      × (w'.events ≡ with_event (event_of m) w.events)

  check_body-cases :
      (i : SendInput)
      → ((e : GoError) × (check_body s i ≡ fails e))
        ⊎ ((check_body s i ≡ returns (trim_space i.body))
            × (trim_space i.body ≢ "")
            × (pos (utf8_len (trim_space i.body)) ≤ℤ s.max_body))
  unfolding check_body
  check_body-cases i =
      let body = trim_space i.body in
      elim (Bool-cases (i.user_id == "" || i.room_id == "")) [
        | inl e ↦ inl (app (new system_internal "user_id and room_id required"), ground arith)
        | inr n ↦ elim (Bool-cases (body == "")) [
          | inl e ↦ inl (app (new system_internal "body empty"), ground arith)
          | inr full ↦ elim (Bool-cases (ltb_ℤ s.max_body (pos (utf8_len body)))) [
            | inl e ↦ inl (app (new system_internal "body too long"), ground arith)
            | inr fits ↦ inr (
              ground arith,
              ne_of_== body "" full,
              le_of_not_ltb_ℤ s.max_body (pos (utf8_len body)) fits,
            )
          ]
        ]
      ]

  -- The limit changes its own state only.
  check_rate-keeps :
      (i : SendInput) (w : World C)
      → ((check_rate s i w).1.messages ≡ w.messages) × ((check_rate s i w).1.events ≡ w.events)
  unfolding check_rate
  check_rate-keeps i w = ground arith

  store_duplicate :
      (m old : Message) (w : World C)
      → lookup m.id w.messages ≡ some old
      → store_and_publish s m w
        ≡ (fails (app (new system_internal (append "store: " (error_text duplicate_id)))), w)
  unfolding store_and_publish store_insert
  store_duplicate m old w h = ground arith

  store_new :
      (m : Message) (w : World C)
      → lookup m.id w.messages ≡ none
      → store_and_publish s m w
        ≡ (returns m, publish s (sent_event s m) (record w { messages = insert m.id m w.messages }))
  unfolding store_and_publish store_insert
  store_new m w h = ground arith

  publish-messages : (e : ChatEvent) (w : World C) → (publish s e w).messages ≡ w.messages
  unfolding publish
  publish-messages e w = ground arith

  publish-events : (e : ChatEvent) (w : World C) → (publish s e w).events ≡ with_event e w.events
  unfolding publish
  publish-events e w = ground arith

  -- The end of `send` from a world with the same messages and events.
  store_and_publish-Sent :
      (i : SendInput) (id : String) (now : Time) (w w' : World C)
      → w'.messages ≡ w.messages
      → w'.events ≡ w.events
      → trim_space i.body ≢ ""
      → pos (utf8_len (trim_space i.body)) ≤ℤ s.max_body
      → let m = new_message s i (trim_space i.body) id now in
        let r = store_and_publish s m w' in Sent i id now w r.0 r.1
  unfolding new_message sent_event
  store_and_publish-Sent i id now w w' ms es full fits =
      let m = new_message s i (trim_space i.body) id now in
      elim (Option-cases (lookup id w'.messages)) [
        | inr (old, e) ↦
            subst (λ r. Sent i id now w r.0 r.1) (sym (store_duplicate m old w' e)) (ms, es)
        | inl e ↦
            subst (λ r. Sent i id now w r.0 r.1) (sym (store_new m w' e))
              (
                refl,
                full,
                fits,
                ap (λ x. lookup id x) (sym ms) ∙ e,
                publish-messages (sent_event s m) _ ∙ ap (insert id m) ms,
                publish-events (sent_event s m) _ ∙ ap (with_event (sent_event s m)) es,
              )
      ]

  send_refused :
      (i : SendInput) (id : String) (now : Time) (w : World C) (e : GoError)
      → check_body s i ≡ fails e
      → send s i id now w ≡ (fails e, w)
  unfolding send
  send_refused i id now w e h = ground arith

  send_limited :
      (i : SendInput) (id body : String) (now : Time) (w : World C) (e : GoError)
      → check_body s i ≡ returns body
      → (check_rate s i w).0 ≡ fails e
      → send s i id now w ≡ (fails e, (check_rate s i w).1)
  unfolding send
  send_limited i id body now w e h q = ground arith

  send_stored :
      (i : SendInput) (id body : String) (now : Time) (w : World C)
      → check_body s i ≡ returns body
      → (check_rate s i w).0 ≡ returns tt
      → send s i id now w ≡ store_and_publish s (new_message s i body id now) (check_rate s i w).1
  unfolding send
  send_stored i id body now w h q = ground arith

  unit_cases :
      (r : Fallible GoError (Unit {0})) → ((e : GoError) × (r ≡ fails e)) ⊎ (r ≡ returns tt)
  unit_cases (fails e) = inl (e, refl)
  unit_cases (returns _) = inr refl

  -- A message that is refused is neither stored nor published. One that is taken has a body that is
  -- not empty and not too long without the spaces at its ends, and a new number. It has the fields of
  -- the input, the clean body and the reason that the filter gives for that body, and is flagged
  -- exactly if the filter says so; it is stored under the number, and published once, on the topic of
  -- messages and with its room as the key, if there is a publisher.
  pub send-Sent :
      (i : SendInput) (id : String) (now : Time) (w : World C)
      → let r = send s i id now w in Sent i id now w r.0 r.1
  send-Sent i id now w =
      let (ms, es) = check_rate-keeps i w in
      elim (check_body-cases i) [
        | inl (e, h) ↦
            subst (λ r. Sent i id now w r.0 r.1) (sym (send_refused i id now w e h)) (refl, refl)
        | inr (h, full, fits) ↦ elim (unit_cases (check_rate s i w).0) [
          | inl (e, q) ↦
              subst (λ r. Sent i id now w r.0 r.1) (sym (send_limited i id _ now w e h q)) (ms, es)
          | inr q ↦
              subst (λ r. Sent i id now w r.0 r.1) (sym (send_stored i id _ now w h q))
                (store_and_publish-Sent i id now w (check_rate s i w).1 ms es full fits)
        ]
      ]
