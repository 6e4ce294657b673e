-- ===== src/EventBus/Delivery.antt =====
-- A channel loses nothing and keeps the order while it has room: what its reader has got and what
-- waits are what was waiting and what was published, whatever the order of the turns.
use mathlib.Core.List.{append_assoc, append-nil}
use yunmao.Base.{
  ℕ, suc, ◌+◌, ◌≤◌, ◌<◌, ◌≡◌, refl, sym, ap, ◌∙◌, arith, false, Option, none, some, nat_eq, length,
  length-append, if◌then◌else◌, List, [], ◌∷◌, ◌++◌, Dict,
}
use yunmao.EventBus.{MemoryBus, Envelope, capacity, send, send_all, channels_of, publish, receive}

-- How often a channel is subscribed.
abbrev pub count : ℕ → List ℕ → ℕ
count c [] = 0
count c (d ∷ ds) = if nat_eq d c then suc (count c ds) else count c ds

-- A turn: a publication, or the reader of a channel takes what comes next.
pub data Turn (P : Type 0) : Type 0 where
  publishes : Envelope P → Turn P
  receives : ℕ → Turn P

module _ {P : Type 0} where
  send_all_keeps :
      (env : Envelope P) (cs : List ℕ) (b : MemoryBus P)
      → ((send_all env cs b).subs ≡ b.subs) × ((send_all env cs b).closed ≡ b.closed)
  unfolding send_all
  send_all_keeps env [] b = (refl, refl)
  send_all_keeps env (c ∷ cs) b = ground (arith, send_all_keeps env cs (send env c b))

  send_all_other :
      (c : ℕ) (env : Envelope P) (cs : List ℕ) (b : MemoryBus P)
      → count c cs ≡ 0
      → (send_all env cs b).queues c ≡ b.queues c
  unfolding send_all
  send_all_other c env [] b h = refl
  send_all_other c env (d ∷ cs) b h = ground (arith, send_all_other c env cs (send env d b))

  send_all_once :
      (c : ℕ) (env : Envelope P) (cs : List ℕ) (b : MemoryBus P)
      → count c cs ≡ 1
      → length (b.queues c) < capacity
      → (send_all env cs b).queues c ≡ b.queues c ++ env ∷ []
  unfolding send_all
  send_all_once c env [] b h room = absurd (omega arith)
  send_all_once c env (d ∷ cs) b h room =
      ground (arith, send_all_other c env cs (send env d b), send_all_once c env cs (send env d b))

  abbrev took : Option (Envelope P) → List (Envelope P)
  took none = []
  took (some env) = env ∷ []

  unfoldable pub turn : Turn P → MemoryBus P → MemoryBus P
  unfolding publish receive
  turn (publishes env) b = (publish env b).1
  turn (receives d) b = (receive d b).1

  -- What the reader of a channel gets in a turn.
  unfoldable pub got : ℕ → Turn P → MemoryBus P → List (Envelope P)
  unfolding receive
  got c (publishes env) b = []
  got c (receives d) b = if nat_eq d c then took (receive d b).0 else []

  unfoldable pub run : List (Turn P) → MemoryBus P → MemoryBus P
  unfolding turn
  run [] b = b
  run (t ∷ ts) b = run ts (turn t b)

  unfoldable pub received : ℕ → List (Turn P) → MemoryBus P → List (Envelope P)
  unfolding got turn
  received c [] b = []
  received c (t ∷ ts) b = got c t b ++ received c ts (turn t b)

  -- What is published to a channel, by the subscriptions.
  abbrev sent : ℕ → Dict (List ℕ) → Turn P → List (Envelope P)
  sent c subs (publishes env) =
      if nat_eq (count c (channels_of env.topic subs)) 0 then [] else env ∷ []
  sent c subs (receives d) = []

  abbrev pub sent_to : ℕ → Dict (List ℕ) → List (Turn P) → List (Envelope P)
  sent_to c subs [] = []
  sent_to c subs (t ∷ ts) = sent c subs t ++ sent_to c subs ts

  -- A channel is subscribed to no topic twice, for the topics of the publications.
  abbrev pub Once : ℕ → Dict (List ℕ) → List (Turn P) → Type 0
  Once c subs [] = Unit {0}
  Once c subs (publishes env ∷ ts) = (count c (channels_of env.topic subs) ≤ 1) × Once c subs ts
  Once c subs (receives d ∷ ts) = Once c subs ts

  turn_keeps :
      (t : Turn P) (b : MemoryBus P) → ((turn t b).subs ≡ b.subs) × ((turn t b).closed ≡ b.closed)
  unfolding turn
  turn_keeps (publishes env) b = ground (arith, send_all_keeps env (channels_of env.topic b.subs) b)
  turn_keeps (receives d) b = ground arith

  turn_queue :
      (c : ℕ) (t : Turn P) (b : MemoryBus P)
      → b.closed ≡ false
      → Once c b.subs (t ∷ [])
      → length (b.queues c) + length (sent c b.subs t) ≤ capacity
      → got c t b ++ (turn t b).queues c ≡ b.queues c ++ sent c b.subs t
  unfolding turn got
  turn_queue c (publishes env) b opened once room =
      let cs = channels_of env.topic b.subs in
      ground (arith, send_all_other c env cs b, send_all_once c env cs b, append-nil (b.queues c))
  turn_queue c (receives d) b opened once room = ground (arith, append-nil (b.queues c))

  Once-split :
      (c : ℕ) (subs : Dict (List ℕ)) (t : Turn P) (ts : List (Turn P))
      → Once c subs (t ∷ ts)
      → Once c subs (t ∷ []) × Once c subs ts
  Once-split c subs (publishes env) ts (h, k) = ((h, tt), k)
  Once-split c subs (receives d) ts h = (tt, h)

  -- In an open bus, what the reader of a channel has got in a history of turns and what then waits
  -- are, in order, what was waiting and what was published to it, if the channel is subscribed to no
  -- topic twice and has room for all of it at once.
  pub received-run :
      (c : ℕ) (ts : List (Turn P)) (b : MemoryBus P)
      → b.closed ≡ false
      → Once c b.subs ts
      → length (b.queues c) + length (sent_to c b.subs ts) ≤ capacity
      → received c ts b ++ (run ts b).queues c ≡ b.queues c ++ sent_to c b.subs ts
  unfolding received run
  received-run c [] b opened once room = sym (append-nil (b.queues c))
  received-run c (t ∷ ts) b opened once room =
      let (subs, closed) = turn_keeps t b in
      let (now, later) = Once-split c b.subs t ts once in
      let new = sent c b.subs t in
      let others = sent_to c b.subs ts in
      let sizes = length-append new others in
      let step = turn_queue c t b opened now (omega (arith, sizes)) in
      let after = (turn t b).queues c in
      let lengths =
        sym (length-append (got c t b) after) ∙ ap length step ∙ length-append (b.queues c) new in
      let less = ap (λ x. length (sent_to c x ts)) subs in
      let rest =
        received-run c ts (turn t b) (closed ∙ opened) (rw (sym subs) at later)
          (omega (arith, lengths, sizes, less)) in
      append_assoc (got c t b) (received c ts (turn t b)) ((run ts (turn t b)).queues c)
      ∙ ap (λ x. got c t b ++ x) (rest ∙ ap (λ x. after ++ sent_to c x ts) subs)
      ∙ sym (append_assoc (got c t b) after others)
      ∙ ap (λ x. x ++ others) step
      ∙ append_assoc (b.queues c) new others

  send_all_bound :
      (c : ℕ) (env : Envelope P) (cs : List ℕ) (b : MemoryBus P)
      → length (b.queues c) ≤ capacity
      → length ((send_all env cs b).queues c) ≤ capacity
  unfolding send_all
  send_all_bound c env [] b h = h
  send_all_bound c env (d ∷ cs) b h =
      ground (arith, send_all_bound c env cs (send env d b), length-append (b.queues c) (env ∷ []))

  -- No channel ever holds more than its capacity.
  run_bound :
      (c : ℕ) (ts : List (Turn P)) (b : MemoryBus P)
      → length (b.queues c) ≤ capacity
      → length ((run ts b).queues c) ≤ capacity
  unfolding run
  run_bound c [] b h = h
  run_bound c (publishes env ∷ ts) b h = ground (
    arith,
    send_all_bound c env (channels_of env.topic b.subs) b,
    run_bound c ts (turn (publishes env) b),
  )
  run_bound c (receives d ∷ ts) b h = ground (arith, run_bound c ts (turn (receives d) b))
