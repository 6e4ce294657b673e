-- ===== src/Pay/Verification.antt =====
-- What a webhook of the mock channel does on every branch.
use mathlib.Core.Path.{subst}
use yunmao.Base.{
  append, String, ◌≡◌, refl, sym, ◌∙◌, arith, ◌⊎◌, inl, inr, ◌||◌, none, some, Bool-cases,
  Option-cases, ℤ, ltb_ℤ, le_of_not_ltb_ℤ, sub64, Fallible, returns, fails, ◌==◌, Dict, lookup,
  insert, lookup-insert_self, eq_of_==, atoi,
}
use yunmao.Pay.{
  MockChannel, MockConfig, Libraries, WebhookBody, WebhookEvent, channel_mock, header, abs,
  mock_sign, check_signature, read_webhook, verify_webhook, query_status,
}
use yunmao.Pay.Window.{IsNear, distance-IsNear}

-- The headers carry a time near now and the signature of the body with it.
abbrev pub Genuine : Libraries → MockConfig → String → Dict String → ℤ → ℤ → Type 0
Genuine l cfg raw headers now t =
    (atoi (header "X-Yunmao-Pay-Ts" headers) ≡ some t)
    × IsNear cfg.replay_window_seconds now t
    × (header "X-Yunmao-Pay-Sig" headers
        ≡ l.hmac_hex cfg.secret (
            append (header "X-Yunmao-Pay-Ts" headers)
              (append "\n" (append (header "X-Yunmao-Pay-Nonce" headers) (append "\n" raw)))))

abbrev pub nonce_of : Dict String → String
nonce_of headers = header "X-Yunmao-Pay-Nonce" headers

pub check_signature-Genuine :
    (l : Libraries) (cfg : MockConfig) (raw : String) (headers : Dict String) (now : ℤ)
    → ((e : String) × (check_signature l cfg raw headers now ≡ fails e))
      ⊎ ((t : ℤ) × (check_signature l cfg raw headers now ≡ returns t)
          × Genuine l cfg raw headers now t)
unfolding check_signature mock_sign
check_signature-Genuine l cfg raw headers now =
    let ts = header "X-Yunmao-Pay-Ts" headers in
    let sig = header "X-Yunmao-Pay-Sig" headers in
    elim (Bool-cases (ts == "" || nonce_of headers == "" || sig == "")) [
      | inl e ↦ inl ("mock: missing X-Yunmao-Pay-Ts/Nonce/Sig", rw e refl)
      | inr full ↦ elim (Option-cases (atoi ts)) [
        | inl e ↦ inl ("mock: invalid ts", rw full (rw e refl))
        | inr (t, read) ↦ elim (Bool-cases (ltb_ℤ cfg.replay_window_seconds (abs (sub64 now t)))) [
          | inl e ↦ inl ("mock: timestamp outside window", rw full (rw read (rw e refl)))
          | inr near ↦ elim (Bool-cases (mock_sign l cfg.secret raw ts (nonce_of headers) == sig)) [
            | inl same ↦ inr (
              t,
              rw full (rw read (rw near (rw same refl))),
              (
                read,
                distance-IsNear cfg.replay_window_seconds now t
                    (le_of_not_ltb_ℤ cfg.replay_window_seconds (abs (sub64 now t)) near),
                sym (eq_of_== _ _ same),
              ),
            )
            | inr other ↦
                inl ("mock: signature mismatch", rw full (rw read (rw near (rw other refl))))
          ]
        ]
      ]
    ]

-- The event that repeats a body.
abbrev pub event_of : WebhookBody → ℤ → WebhookEvent
event_of body t = record {
  channel = channel_mock;
  order_id = body.order_id;
  external_trade_no = body.external_trade_no;
  amount_fen = body.amount_fen;
  status = body.status;
  occurred_at = t;
}

-- Of a webhook that fails nothing stays but the nonce of a genuine one whose body is no JSON. One that
-- is taken is genuine, has a new nonce and a body in JSON, which the event repeats; the nonce is kept,
-- and the status of the body is what QueryStatus then reads.
abbrev pub Verified :
    Libraries
    → String
    → Dict String
    → ℤ
    → MockChannel
    → Fallible String WebhookEvent
    → MockChannel
    → Type 0
Verified l raw headers now m (fails e) m' =
    (m' ≡ m)
    ⊎ ((t : ℤ) × Genuine l m.cfg raw headers now t
        × (lookup (nonce_of headers) m.nonces ≡ none)
        × (l.read_body raw ≡ none)
        × (m' ≡ record m { nonces = insert (nonce_of headers) t m.nonces }))
Verified l raw headers now m (returns ev) m' =
    (t : ℤ) × (body : WebhookBody) × Genuine l m.cfg raw headers now t
    × (lookup (nonce_of headers) m.nonces ≡ none)
    × (l.read_body raw ≡ some body)
    × (ev ≡ event_of body t)
    × (m'.nonces ≡ insert (nonce_of headers) t m.nonces)
    × ((query_status body.order_id m').status ≡ body.status)

pub queried :
    (order st : String) (m : MockChannel)
    → lookup order m.status ≡ some st
    → (query_status order m).status ≡ st
unfolding query_status
queried order st m h = ground arith

module _ (l : Libraries) (raw : String) (headers : Dict String) (now : ℤ) (m : MockChannel) where
  pub verify_refused :
      (e : String)
      → check_signature l m.cfg raw headers now ≡ fails e
      → verify_webhook l raw headers now m ≡ (fails e, m)
  unfolding verify_webhook
  verify_refused e h = ground arith

  pub verify_replayed :
      (t old : ℤ)
      → check_signature l m.cfg raw headers now ≡ returns t
      → lookup (nonce_of headers) m.nonces ≡ some old
      → verify_webhook l raw headers now m ≡ (fails "mock: nonce replayed", m)
  unfolding verify_webhook
  verify_replayed t old h there = ground arith

  verify_read :
      (t : ℤ)
      → check_signature l m.cfg raw headers now ≡ returns t
      → lookup (nonce_of headers) m.nonces ≡ none
      → verify_webhook l raw headers now m
        ≡ read_webhook l raw t (record m { nonces = insert (nonce_of headers) t m.nonces })
  unfolding verify_webhook
  verify_read t h new = ground arith

  read_bad :
      (t : ℤ) (m' : MockChannel)
      → l.read_body raw ≡ none
      → read_webhook l raw t m' ≡ (fails "mock: invalid json body", m')
  unfolding read_webhook
  read_bad t m' h = ground arith

  read_good :
      (t : ℤ) (body : WebhookBody) (m' : MockChannel)
      → l.read_body raw ≡ some body
      → read_webhook l raw t m' ≡ (
        returns (event_of body t),
        record m' { status = insert body.order_id body.status m'.status },
      )
  unfolding read_webhook
  read_good t body m' h = ground arith

  verified :
      (q : Fallible String WebhookEvent × MockChannel)
      → verify_webhook l raw headers now m ≡ q
      → Verified l raw headers now m q.0 q.1
      → let r = verify_webhook l raw headers now m in Verified l raw headers now m r.0 r.1
  verified q e h = subst (λ r. Verified l raw headers now m r.0 r.1) (sym e) h

  -- A webhook that fails changes nothing, but that a genuine one with a new nonce whose body is no
  -- JSON uses its nonce up. One that is taken has a time that is at most the window before or after now,
  -- or 2 ^ 63 seconds or more away, where the int64 wraps; it has the signature of the time, its nonce and
  -- the body, a new nonce, which is kept, and a body in JSON, which the event repeats and whose status
  -- QueryStatus then reads.
  pub verify_webhook-Verified :
      let r = verify_webhook l raw headers now m in Verified l raw headers now m r.0 r.1
  verify_webhook-Verified = elim (check_signature-Genuine l m.cfg raw headers now) [
    | inl (e, h) ↦ verified _ (verify_refused e h) (inl refl)
    | inr (t, h, genuine) ↦ elim (Option-cases (lookup (nonce_of headers) m.nonces)) [
      | inr (old, there) ↦ verified _ (verify_replayed t old h there) (inl refl)
      | inl new ↦ elim (Option-cases (l.read_body raw)) [
        | inl bad ↦
            verified _ (verify_read t h new ∙ read_bad t _ bad) (inr (t, genuine, new, bad, refl))
        | inr (body, good) ↦ verified _ (verify_read t h new ∙ read_good t body _ good) (
          t,
          body,
          genuine,
          new,
          good,
          refl,
          refl,
          queried body.order_id body.status _
              (lookup-insert_self body.order_id body.status m.status),
        )
      ]
    ]
  ]
