-- ===== src/Pay/Replay.antt =====
-- No webhook of the mock channel is taken twice.
use yunmao.Base.{
  String, ◌≡◌, refl, ap, inl, inr, some, Bool-cases, ℤ, Fallible, returns, fails, List, [], ◌∷◌,
  ◌==◌, Dict, lookup, insert, lookup-insert, lookup-insert_self,
}
use yunmao.Pay.{MockChannel, Libraries, WebhookEvent, verify_webhook}
use yunmao.Pay.Verification.{
  nonce_of, check_signature-Genuine, Verified, verify_refused, verify_replayed,
  verify_webhook-Verified,
}

-- A webhook that is served: its body, its headers and the time.
abbrev pub Call : Type 0
Call = String × Dict String × ℤ

abbrev pub served : Libraries → List Call → MockChannel → MockChannel
served l [] m = m
served l ((raw, headers, now) ∷ calls) m = served l calls (verify_webhook l raw headers now m).1

abbrev Used : String → MockChannel → Type 0
Used nonce m = (t : ℤ) × (lookup nonce m.nonces ≡ some t)

Used-refused :
    (l : Libraries) (raw : String) (headers : Dict String) (now : ℤ) (m : MockChannel)
    → Used (nonce_of headers) m
    → (e : String) × (verify_webhook l raw headers now m ≡ (fails e, m))
Used-refused l raw headers now m (old, there) =
    elim (check_signature-Genuine l m.cfg raw headers now) [
      | inl (e, h) ↦ (e, verify_refused l raw headers now m e h)
      | inr (t, h, _) ↦ ("mock: nonce replayed", verify_replayed l raw headers now m t old h there)
    ]

-- The nonces of a call are kept, and a nonce stays kept.
insert-Used :
    (nonce n : String) (t : ℤ) (m m' : MockChannel)
    → Used nonce m
    → m'.nonces ≡ insert n t m.nonces
    → Used nonce m'
insert-Used nonce n t m m' (old, there) e = elim (Bool-cases (n == nonce)) [
  | inl same ↦ (t, rw e (rw (lookup-insert n nonce t m.nonces) (rw same refl)))
  | inr other ↦ (old, rw e (rw (lookup-insert n nonce t m.nonces) (rw other there)))
]

verify_webhook-Used :
    (nonce : String) (l : Libraries) (raw : String) (headers : Dict String) (now : ℤ)
    (m : MockChannel)
    → Used nonce m
    → Used nonce (verify_webhook l raw headers now m).1
verify_webhook-Used nonce l raw headers now m used =
    kept (verify_webhook l raw headers now m).0 _ (verify_webhook-Verified l raw headers now m)
  where
    kept :
        (r : Fallible String WebhookEvent) (m' : MockChannel)
        → Verified l raw headers now m r m'
        → Used nonce m'
    kept (fails e) m' (inl same) = rw same used
    kept (fails e) m' (inr (t, _, _, _, e')) =
        insert-Used nonce (nonce_of headers) t m m' used (ap (λ x. x.nonces) e')
    kept (returns ev) m' (t, _, _, _, _, _, e', _) =
        insert-Used nonce (nonce_of headers) t m m' used e'

served-Used :
    (nonce : String) (l : Libraries) (calls : List Call) (m : MockChannel)
    → Used nonce m
    → Used nonce (served l calls m)
served-Used nonce l [] m used = used
served-Used nonce l ((raw, headers, now) ∷ calls) m used =
    served-Used nonce l calls _ (verify_webhook-Used nonce l raw headers now m used)

-- Once a webhook was taken, another one with its nonce is refused and changes nothing, whatever
-- webhooks are served in between and at whatever time it comes.
pub verify_webhook-served :
    (l : Libraries) (raw : String) (headers : Dict String) (now : ℤ) (m : MockChannel)
    (ev : WebhookEvent) (calls : List Call) (raw' : String) (headers' : Dict String) (now' : ℤ)
    → (verify_webhook l raw headers now m).0 ≡ returns ev
    → nonce_of headers' ≡ nonce_of headers
    → let m' = served l calls (verify_webhook l raw headers now m).1 in
      (e : String) × (verify_webhook l raw' headers' now' m' ≡ (fails e, m'))
verify_webhook-served l raw headers now m ev calls raw' headers' now' taken same =
    Used-refused l raw' headers' now' _ (
      rw same (
        served-Used (nonce_of headers) l calls _ (
          used (verify_webhook l raw headers now m).0 _ taken
            (verify_webhook-Verified l raw headers now m))))
  where
    used :
        (r : Fallible String WebhookEvent) (m' : MockChannel)
        → r ≡ returns ev
        → Verified l raw headers now m r m'
        → Used (nonce_of headers) m'
    used (fails e) m' h v = cc h
    used (returns _) m' h (t, _, _, _, _, _, e', _) =
        (t, rw e' (lookup-insert_self (nonce_of headers) t m.nonces))
