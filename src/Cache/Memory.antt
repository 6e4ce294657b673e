-- ===== src/Cache/Memory.antt =====
-- The in-process store, MemoryStore of go/pkg/yunmao/cache/cache.go, as an implementation of the
-- interface Store. The clock is part of the state: a step between two calls moves it.
pub mod Once
use yunmao.Base.{
  suc, ◌-◌, ◌≡◌, refl, String, append, Bool, true, false, not, ◌&&◌, ◌||◌, Option, none, some,
  nat_eq, if◌then◌else◌, ℤ, pos, negsuc, ltb_ℤ, add64, two63, returns, Action, [], ◌∷◌, Dict,
  lookup, insert, erase, Time, Duration, zero_time, before, after, add_time, decimal_loop,
}
use yunmao.Cache.{Store}

pub record Entry : Type 0 where
  pub val : String
  pub counter : ℤ  -- int64
  pub expire : Time

pub record MemoryStore : Type 0 where
  pub m : Dict Entry
  pub now : Time

unfoldable pub is_dead : Time → Entry → Bool
is_dead now e = not (nat_eq e.expire zero_time) && after now e.expire

-- The loop of `gc`.
unfoldable pub gc_loop : Time → Dict Entry → Dict Entry
unfolding is_dead
gc_loop now [] = []
gc_loop now ((k, e) ∷ rows) =
    let rest = gc_loop now rows in if is_dead now e then rest else (k, e) ∷ rest

unfoldable pub gc : MemoryStore → MemoryStore
unfolding gc_loop
gc s = record s { m = gc_loop s.now s.m }

unfoldable pub expiry : Time → Duration → Time
expiry now ttl = if ltb_ℤ (pos 0) ttl then add_time now ttl else zero_time

unfoldable pub memory_set : String → String → Duration → Action MemoryStore String (Unit {0})
unfolding expiry
memory_set k value ttl s = (
  returns tt,
  record s {
    m = insert k (record { val = value; counter = pos 0; expire = expiry s.now ttl }) s.m;
  },
)

-- The test of SetNX on the entry that is there.
unfoldable pub holds : Time → Option Entry → Bool
holds now none = false
holds now (some e) = nat_eq e.expire zero_time || before now e.expire

unfoldable pub memory_set_nx : String → String → Duration → Action MemoryStore String Bool
unfolding gc expiry holds
memory_set_nx k value ttl s =
    let s' = gc s in
    if holds s.now (lookup k s'.m) then (returns false, s') else (
      returns true,
      record s' {
        m = insert k (record { val = value; counter = pos 0; expire = expiry s.now ttl }) s'.m;
      },
    )

unfoldable pub val_of : Option Entry → Option String
val_of none = none
val_of (some e) = some e.val

unfoldable pub memory_get : String → Action MemoryStore String (Option String)
unfolding gc val_of
memory_get k s = (returns (val_of (lookup k (gc s).m)), gc s)

-- The digits of a positive int64; the smallest int64 is its own negation, which prints no digit.
unfoldable pub format_int : ℤ → String
unfolding decimal_loop
format_int (pos n) = if nat_eq n 0 then "0" else decimal_loop 20 n ""
format_int (negsuc n) =
    if nat_eq n (two63 - 1) then "-" else append "-" (decimal_loop 20 (suc n) "")

-- The entry that IncrBy adds to: the one that is there, or a new one.
unfoldable pub counted : Time → Duration → Option Entry → Entry
unfolding expiry
counted now ttl none = record { val = ""; counter = pos 0; expire = expiry now ttl }
counted now ttl (some e) = e

unfoldable pub memory_incr_by : String → ℤ → Duration → Action MemoryStore String ℤ
unfolding gc counted format_int
memory_incr_by k delta ttl s =
    let s' = gc s in
    let e = counted s.now ttl (lookup k s'.m) in
    let n = add64 e.counter delta in
    (returns n, record s' { m = insert k (record e { val = format_int n; counter = n }) s'.m })

unfoldable pub expired_at : Time → String → Option Entry → Dict Entry → Dict Entry
expired_at t k none m = m
expired_at t k (some e) m = insert k (record e { expire = t }) m

unfoldable pub memory_expire : String → Duration → Action MemoryStore String (Unit {0})
unfolding expired_at
memory_expire k ttl s =
    (returns tt, record s { m = expired_at (add_time s.now ttl) k (lookup k s.m) s.m })

unfoldable pub memory_del : String → Action MemoryStore String (Unit {0})
memory_del k s = (returns tt, record s { m = erase k s.m })

unfoldable pub memory_store : Store MemoryStore
unfolding memory_set memory_set_nx memory_get memory_incr_by memory_expire memory_del
memory_store = record {
  set = memory_set;
  set_nx = memory_set_nx;
  get = memory_get;
  incr_by = memory_incr_by;
  expire = memory_expire;
  del = memory_del;
}

format_int_1200 : format_int (pos 1200) ≡ "1200"
unfolding format_int
format_int_1200 = refl

format_int_minus : format_int (negsuc 9) ≡ "-10"
unfolding format_int
format_int_minus = refl
