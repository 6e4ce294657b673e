-- ===== src/Cache/Memory/Once.antt =====
-- A key that SetNX has taken stays taken until it expires.
use yunmao.Base.{
  lookup-insert_self, lookup-insert, true, ◌<◌, ◌≤◌, ◌≡◌, ◌∙◌, ap, ◌==◌, eq_of_==, Bool-cases, inl,
  inr, String, false, some, arith, pos, pos_part, Dict, List, [], ◌∷◌, lookup, Time, Duration,
  returns, ◌⊎◌,
}
use yunmao.Cache.Memory.{
  Entry, MemoryStore, is_dead, gc_loop, gc, expiry, holds, memory_set_nx, memory_get,
}

pub lookup-gc_loop :
    (now : Time) (k : String) (e : Entry) (m : Dict Entry)
    → lookup k m ≡ some e
    → is_dead now e ≡ false
    → lookup k (gc_loop now m) ≡ some e
unfolding lookup gc_loop
lookup-gc_loop now k e [] h live = h
lookup-gc_loop now k e ((j, x) ∷ m) h live = ground (arith, lookup-gc_loop now k e m)

-- The entry that a successful SetNX writes.
abbrev pub taken : String → Duration → Time → Entry
taken value ttl now = record { val = value; counter = pos 0; expire = expiry now ttl }

abbrev at_time : Time → MemoryStore → MemoryStore
at_time later s = record s { now = later }

first_taken :
    (s : MemoryStore) (k value : String) (ttl : Duration)
    → (memory_set_nx k value ttl s).0 ≡ returns true
    → (lookup k (memory_set_nx k value ttl s).1.m ≡ some (taken value ttl s.now))
      × ((memory_set_nx k value ttl s).1.now ≡ s.now)
unfolding memory_set_nx gc
first_taken s k value ttl h =
    (ground (arith, lookup-insert_self k (taken value ttl s.now) (gc_loop s.now s.m)), ground arith)

-- A call of another caller: SetNX on any key, or Get.
pub data Call : Type 0 where
  set_nx : String → String → Duration → Call
  get : String → Call

-- The store after calls at their times.
abbrev pub called : List (Call × Time) → MemoryStore → MemoryStore
called [] s = s
called ((set_nx j value ttl, now) ∷ calls) s =
    called calls (memory_set_nx j value ttl (at_time now s)).1
called ((get j, now) ∷ calls) s = called calls (memory_get j (at_time now s)).1

abbrev pub AllBefore : Time → List (Call × Time) → Type 0
AllBefore later [] = Unit {0}
AllBefore later ((_, now) ∷ calls) = (now ≤ later) × AllBefore later calls

taken_alive :
    (value : String) (ttl : Duration) (start now later : Time)
    → now ≤ later
    → (pos_part ttl ≡ 0) ⊎ (later < expiry start ttl)
    → is_dead now (taken value ttl start) ≡ false
unfolding is_dead expiry
taken_alive value ttl start now later h live = ground arith

module _ (k value : String) (ttl : Duration) (start later : Time)
    (live : (pos_part ttl ≡ 0) ⊎ (later < expiry start ttl)) where
  abbrev IsKept : MemoryStore → Type 0
  IsKept s = lookup k s.m ≡ some (taken value ttl start)

  gc-IsKept : (now : Time) (s : MemoryStore) → now ≤ later → IsKept s → IsKept (gc (at_time now s))
  unfolding gc
  gc-IsKept now s h kept =
      lookup-gc_loop now k (taken value ttl start) s.m kept
        (taken_alive value ttl start now later h live)

  kept_refused :
      (other : String) (ttl' : Duration) (now : Time) (s : MemoryStore)
      → now ≤ later
      → IsKept s
      → memory_set_nx k other ttl' (at_time now s) ≡ (returns false, gc (at_time now s))
  unfolding memory_set_nx holds expiry
  kept_refused other ttl' now s h kept = rw (gc-IsKept now s h kept) (ground arith)

  set_nx-IsKept :
      (j other : String) (ttl' : Duration) (now : Time) (s : MemoryStore)
      → now ≤ later
      → IsKept s
      → IsKept (memory_set_nx j other ttl' (at_time now s)).1
  unfolding memory_set_nx
  set_nx-IsKept j other ttl' now s h kept = elim (Bool-cases (j == k)) [
    | inl same ↦
        rw (eq_of_== j k same)
          (ap (λ r. lookup k r.1.m) (kept_refused other ttl' now s h kept) ∙ gc-IsKept now s h kept)
    | inr ne ↦
        let kept' = gc-IsKept now s h kept in
        let e = lookup-insert j k (taken other ttl' now) (gc (at_time now s)).m in
        elim (Bool-cases (holds now (lookup j (gc (at_time now s)).m))) [
          | inl held ↦ rw held kept'
          | inr free ↦ rw free (e ∙ rw ne kept')
        ]
  ]

  called-IsKept :
      (calls : List (Call × Time)) (s : MemoryStore)
      → AllBefore later calls
      → IsKept s
      → IsKept (called calls s)
  unfolding memory_get
  called-IsKept [] s h kept = kept
  called-IsKept ((set_nx j other ttl', now) ∷ calls) s (h, hs) kept =
      called-IsKept calls _ hs (set_nx-IsKept j other ttl' now s h kept)
  called-IsKept ((get j, now) ∷ calls) s (h, hs) kept =
      called-IsKept calls _ hs (gc-IsKept now s h kept)

-- Once SetNX has taken a key, it takes the key again for nobody, whatever calls of SetNX on any keys
-- and of Get come in between: while the time to live has not run out, or at any later time if the
-- time to live is not positive. The condition is that no call in between is later than the last one.
pub memory_set_nx_again :
    (s : MemoryStore) (k value other : String) (ttl ttl' : Duration) (calls : List (Call × Time))
    (later : Time)
    → (memory_set_nx k value ttl s).0 ≡ returns true
    → AllBefore later calls
    → (pos_part ttl ≡ 0) ⊎ (later < expiry s.now ttl)
    → (memory_set_nx k other ttl'
        (record (called calls (memory_set_nx k value ttl s).1) { now = later })).0
      ≡ returns false
memory_set_nx_again s k value other ttl ttl' calls later h before live =
    let (found, _) = first_taken s k value ttl h in
    let t = called calls (memory_set_nx k value ttl s).1 in
    let kept = called-IsKept k value ttl s.now later live calls _ before found in
    ap (λ r. r.0) (kept_refused k value ttl s.now later live other ttl' later t (omega arith) kept)
