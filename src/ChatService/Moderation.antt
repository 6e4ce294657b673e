-- ===== src/ChatService/Moderation.antt =====
-- That a message which was moderated out of sight is in no listing, over any history of calls.
use mathlib.Core.Path.{subst}
use yunmao.Base.{
  String, ◌≡◌, refl, sym, ap, ◌∙◌, arith, inl, inr, true, false, ◌||◌, none, some, Bool-cases,
  Option-cases, ℤ, Fallible, returns, fails, [], ◌==◌, lookup, insert, Time,
}
use yunmao.Errors.{GoError, app, new, system_internal}
use yunmao.ChatStore.{Message, store_moderate, is_shown, store_list}
use yunmao.ChatStore.Hiding.{Keyed, Without, insert-Keyed, lookup-Keyed, store_list-Without}
use yunmao.ChatService.{
  ChatService, World, SendInput, publish, send, valid_moderation_status, moderate, list, limit_of,
  new_message,
}
use yunmao.ChatService.Sending.{Sent, send-Sent}

module _ {C : Type 0} (s : ChatService C) where
  -- The worlds that calls lead to from one without messages.
  pub data Reaches : World C → Type 0 where
    start : {w : World C} → w.messages ≡ [] → Reaches w
    sends :
        {w : World C} (i : SendInput) (id : String) (now : Time)
        → Reaches w
        → Reaches (send s i id now w).1
    moderates :
        {w : World C} (id status reason : String)
        → Reaches w
        → Reaches (moderate s id status reason w).1

  -- What moderating does to the messages.
  abbrev Moderated :
      String → String → String → World C → Fallible GoError Message → World C → Type 0
  Moderated id status reason w (fails e) w' = w'.messages ≡ w.messages
  Moderated id status reason w (returns m) w' =
      (old : Message) × (lookup id w.messages ≡ some old)
      × (m ≡ record old { moderation_status = status; moderation_reason = reason })
      × (w'.messages ≡ insert id m w.messages)

  moderate_invalid :
      (id status reason : String) (w : World C)
      → valid_moderation_status status ≡ false
      → moderate s id status reason w
        ≡ (fails (app (new system_internal "invalid moderation status")), w)
  unfolding moderate
  moderate_invalid id status reason w h = ground arith

  moderate_missing :
      (id status reason : String) (w : World C)
      → valid_moderation_status status ≡ true
      → lookup id w.messages ≡ none
      → moderate s id status reason w ≡ (fails (app (new system_internal "message not found")), w)
  unfolding moderate store_moderate
  moderate_missing id status reason w h e = ground arith

  moderate_found :
      (id status reason : String) (w : World C) (old : Message)
      → valid_moderation_status status ≡ true
      → lookup id w.messages ≡ some old
      → let m = record old { moderation_status = status; moderation_reason = reason } in
        ((moderate s id status reason w).0 ≡ returns m)
        × ((moderate s id status reason w).1.messages ≡ insert id m w.messages)
  unfolding moderate store_moderate publish
  moderate_found id status reason w old h e = (ground arith, ground arith)

  moderate-Moderated :
      (id status reason : String) (w : World C)
      → let r = moderate s id status reason w in Moderated id status reason w r.0 r.1
  moderate-Moderated id status reason w = elim (Bool-cases (valid_moderation_status status)) [
    | inr bad ↦
        subst (λ r. Moderated id status reason w r.0 r.1)
          (sym (moderate_invalid id status reason w bad)) refl
    | inl good ↦ elim (Option-cases (lookup id w.messages)) [
      | inl none_there ↦
          subst (λ r. Moderated id status reason w r.0 r.1)
            (sym (moderate_missing id status reason w good none_there)) refl
      | inr (old, there) ↦
          let (out, ms) = moderate_found id status reason w old good there in
          subst (λ r. Moderated id status reason w r (moderate s id status reason w).1) (sym out)
            (old, there, refl, ms)
    ]
  ]

  sent-Keyed :
      (i : SendInput) (id : String) (now : Time) (w w' : World C) (r : Fallible GoError Message)
      → Keyed w.messages
      → Sent s i id now w r w'
      → Keyed w'.messages
  unfolding new_message
  sent-Keyed i id now w w' (fails e) h (ms, es) = subst Keyed (sym ms) h
  sent-Keyed i id now w w' (returns m) h (made, _, _, _, ms, _) =
      let number : m.id ≡ id = ap (λ x. x.id) made in
      subst Keyed (sym ms)
        (subst (λ k. Keyed (insert k m w.messages)) number (insert-Keyed m w.messages h))

  Moderated-Keyed :
      (id status reason : String) (w w' : World C) (r : Fallible GoError Message)
      → Keyed w.messages
      → Moderated id status reason w r w'
      → Keyed w'.messages
  Moderated-Keyed id status reason w w' (fails e) h ms = subst Keyed (sym ms) h
  Moderated-Keyed id status reason w w' (returns m) h (old, there, made, ms) =
      let number : m.id ≡ id = ap (λ x. x.id) made ∙ lookup-Keyed id old w.messages h there in
      subst Keyed (sym ms)
        (subst (λ k. Keyed (insert k m w.messages)) number (insert-Keyed m w.messages h))

  Reaches-Keyed : {w : World C} → Reaches w → Keyed w.messages
  Reaches-Keyed (start e) = subst Keyed (sym e) tt
  Reaches-Keyed (sends {w} i id now r) =
      sent-Keyed i id now w _ (send s i id now w).0 (Reaches-Keyed r) (send-Sent s i id now w)
  Reaches-Keyed (moderates {w} id status reason r) =
      Moderated-Keyed id status reason w _ (moderate s id status reason w).0 (Reaches-Keyed r)
        (moderate-Moderated id status reason w)

  hidden :
      (room : String) (limit : ℤ) (id status reason : String) (w w' : World C)
      (r : Fallible GoError Message) (m : Message)
      → Keyed w.messages
      → (status == "published" || status == "flagged") ≡ false
      → r ≡ returns m
      → Moderated id status reason w r w'
      → Without id (list room limit w')
  unfolding list is_shown
  hidden room limit id status reason w w' (fails e) m h out q ms = cc q
  hidden room limit id status reason w w' (returns x) m h out q (old, there, made, ms) =
      let number : x.id ≡ id = ap (λ y. y.id) made ∙ lookup-Keyed id old w.messages h there in
      let st : x.moderation_status ≡ status = ap (λ y. y.moderation_status) made in
      let gone : is_shown room x ≡ false = ground arith in
      rw ms (
        subst (λ k. Without k (store_list room (limit_of limit) (insert k x w.messages))) number
          (store_list-Without room (limit_of limit) x w.messages h gone))

  -- After any history of calls of a service that began without messages: once a message was moderated
  -- to a status other than published and flagged, no listing of any room has a message of its number.
  pub list-moderate :
      (w : World C) (room : String) (limit : ℤ) (id status reason : String) (m : Message)
      → Reaches w
      → (status == "published" || status == "flagged") ≡ false
      → (moderate s id status reason w).0 ≡ returns m
      → Without id (list room limit (moderate s id status reason w).1)
  list-moderate w room limit id status reason m r out done =
      hidden room limit id status reason w _ (moderate s id status reason w).0 m (Reaches-Keyed r)
        out done (moderate-Moderated id status reason w)
