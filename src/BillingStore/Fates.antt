-- ===== src/BillingStore/Fates.antt =====
-- What becomes of one hold: it is reserved once, and settled once.
use text.Mathlib.TextLemmas.{append_assoc}
use yunmao.Base.{
  String, append, ◌≡◌, refl, sym, ◌∙◌, ap, some, arith, Option-cases, inl, inr, lookup,
  lookup-insert_self, Time,
}
use yunmao.BillingStore.{
  WalletHold, WalletBalance, HoldStatus, reserved, confirmed, cancelled, expired, MemoryStore, ok,
  err, already_terminal, ensure_wallet, reserve_new, reserve_hold, confirm_found, confirm_hold,
  cancel_found, cancel_hold, hold_key,
}

-- The store holds a hold under its number.
abbrev Holds : MemoryStore → String → WalletHold → Type 0
Holds s id h = lookup id s.holds ≡ some h

confirm_found_ok :
    (s s' : MemoryStore) (id : String) (at now : Time) (h h' : WalletHold) (st : HoldStatus)
    → lookup id s.holds ≡ some h
    → h.status ≡ st
    → confirm_found s id at now h st ≡ (ok h', s')
    → Holds s' id h' × (h'.status ≡ confirmed)
unfolding confirm_found
confirm_found_ok s s' id at now h h' confirmed found e q = ground arith
confirm_found_ok s s' id at now h h' cancelled found e q = cc
confirm_found_ok s s' id at now h h' expired found e q = cc
confirm_found_ok s s' id at now h h' reserved found e q = ground (
  arith,
  lookup-insert_self id (record h { status = confirmed; updated_at = at })
      (ensure_wallet s h.user_id h.region_id now).1.holds,
)

confirm_hold_ok :
    (s s' : MemoryStore) (id : String) (at now : Time) (h : WalletHold)
    → confirm_hold s id at now ≡ (ok h, s')
    → Holds s' id h × (h.status ≡ confirmed)
unfolding confirm_hold
confirm_hold_ok s s' id at now h q = elim (Option-cases (lookup id s.holds)) [
  | inl gone ↦ cc (rw (gone, confirm_hold) at q)
  | inr (x, found) ↦
      confirm_found_ok s s' id at now x h x.status found refl (rw (found, confirm_hold) at q)
]

-- Once a hold was confirmed, confirming it again returns the same hold and changes nothing, and
-- cancelling it is refused and changes nothing: its amount is debited once.
pub confirm_hold_settles :
    (s s' : MemoryStore) (id : String) (at now at' now' : Time) (h : WalletHold)
    → confirm_hold s id at now ≡ (ok h, s')
    → (confirm_hold s' id at' now' ≡ (ok h, s'))
      × (cancel_hold s' id at' now' ≡ (err already_terminal, s'))
unfolding confirm_hold confirm_found cancel_hold cancel_found
confirm_hold_settles s s' id at now at' now' h q =
    let (found, st) = confirm_hold_ok s s' id at now h q in (ground arith, ground arith)

cancel_found_ok :
    (s s' : MemoryStore) (id : String) (at now : Time) (h h' : WalletHold) (st : HoldStatus)
    → lookup id s.holds ≡ some h
    → h.status ≡ st
    → cancel_found s id at now h st ≡ (ok h', s')
    → Holds s' id h' × (h'.status ≡ cancelled)
unfolding cancel_found
cancel_found_ok s s' id at now h h' cancelled found e q = ground arith
cancel_found_ok s s' id at now h h' confirmed found e q = cc
cancel_found_ok s s' id at now h h' expired found e q = cc
cancel_found_ok s s' id at now h h' reserved found e q = ground (
  arith,
  lookup-insert_self id (record h { status = cancelled; updated_at = at })
      (ensure_wallet s h.user_id h.region_id now).1.holds,
)

cancel_hold_ok :
    (s s' : MemoryStore) (id : String) (at now : Time) (h : WalletHold)
    → cancel_hold s id at now ≡ (ok h, s')
    → Holds s' id h × (h.status ≡ cancelled)
unfolding cancel_hold
cancel_hold_ok s s' id at now h q = elim (Option-cases (lookup id s.holds)) [
  | inl gone ↦ cc (rw (gone, cancel_hold) at q)
  | inr (x, found) ↦
      cancel_found_ok s s' id at now x h x.status found refl (rw (found, cancel_hold) at q)
]

-- Once a hold was cancelled, cancelling it again returns the same hold and changes nothing, and
-- confirming it is refused and changes nothing: its amount is released once and never debited.
pub cancel_hold_settles :
    (s s' : MemoryStore) (id : String) (at now at' now' : Time) (h : WalletHold)
    → cancel_hold s id at now ≡ (ok h, s')
    → (cancel_hold s' id at' now' ≡ (ok h, s'))
      × (confirm_hold s' id at' now' ≡ (err already_terminal, s'))
unfolding confirm_hold confirm_found cancel_hold cancel_found
cancel_hold_settles s s' id at now at' now' h q =
    let (found, st) = cancel_hold_ok s s' id at now h q in (ground arith, ground arith)

-- The index entry of a key, with the hold that it names.
abbrev Indexes : MemoryStore → String → WalletHold → Type 0
Indexes s key h = (id : String) × (lookup key s.holds_idx ≡ some id) × (lookup id s.holds ≡ some h)

reserve_new_ok :
    (s s' : MemoryStore) (h r : WalletHold) (now : Time) (w : WalletBalance)
    → reserve_new s h now w ≡ (ok r, s')
    → Indexes s' (hold_key h) r
unfolding reserve_new
reserve_new_ok s s' h r now w q = (
  h.id,
  ground (arith, lookup-insert_self (hold_key h) h.id s.holds_idx),
  ground (arith, lookup-insert_self h.id h s.holds),
)

reserve_hold_ok :
    (s s' : MemoryStore) (h r : WalletHold) (opened now : Time)
    → reserve_hold s h opened now ≡ (ok r, s')
    → Indexes s' (hold_key h) r
unfolding reserve_hold
reserve_hold_ok s s' h r opened now q = elim (Option-cases (lookup (hold_key h) s.holds_idx)) [
  | inl new ↦
      let (w, s1) = ensure_wallet s h.user_id h.region_id opened in
      reserve_new_ok s1 s' h r now w (rw (new, reserve_hold) at q)
  | inr (id, old) ↦ (id, ground arith, ground arith)
]

-- Reserving is idempotent in the key: after a reservation succeeded, another one with the same key
-- returns the hold of the first and changes nothing, whatever it asks for.
pub reserve_hold_again :
    (s s' : MemoryStore) (h r h' : WalletHold) (opened now opened' now' : Time)
    → reserve_hold s h opened now ≡ (ok r, s')
    → hold_key h' ≡ hold_key h
    → reserve_hold s' h' opened' now' ≡ (ok r, s')
unfolding reserve_hold
reserve_hold_again s s' h r h' opened now opened' now' q key =
    let (id, indexed, found) = reserve_hold_ok s s' h r opened now q in
    rw (key, indexed, found, reserve_hold)

same_key :
    (a b c : String)
    → append (append a (append "|" b)) (append "|" c)
      ≡ append a (append "|" (append b (append "|" c)))
same_key a b c =
    append_assoc a (append "|" b) (append "|" c) ∙ ap (append a) (append_assoc "|" b (append "|" c))

-- The key joins the user and the idempotency key by a bar, so it does not tell users apart: after
-- user "a|b" reserved with key "c", user "a" with key "b|c" is given that user's hold.
pub reserve_hold_collides :
    (s s' : MemoryStore) (h r h' : WalletHold) (opened now opened' now' : Time) (a b c : String)
    → h.user_id ≡ append a (append "|" b)
    → h.idempotency_key ≡ c
    → h'.user_id ≡ a
    → h'.idempotency_key ≡ append b (append "|" c)
    → reserve_hold s h opened now ≡ (ok r, s')
    → reserve_hold s' h' opened' now' ≡ (ok r, s')
unfolding hold_key
reserve_hold_collides s s' h r h' opened now opened' now' a b c u k u' k' q =
    reserve_hold_again s s' h r h' opened now opened' now' q
      (rw (u, k, u', k') (sym (same_key a b c)))
