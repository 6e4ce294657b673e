-- ===== src/FeedingSafety/Priority.antt =====
-- Which threshold wins, and that no configuration switches a threshold off.
use mathlib.Core.Path.{subst}
use yunmao.Base.{
  ◌<◌, String, ◌≡◌, ◌≢◌, not, Option, none, some, arith, if◌then◌else◌, ◌==◌, ==_of_ne, pos, ◌<ℤ◌,
  Dict, lookup, insert, lookup-insert_self, lookup-insert_ne, Bool-cases, Option-cases, inl, inr,
}
use yunmao.FeedingSafety.{
  Limits, default_global, zero_limits, Read, failed, found, Store, merge, Resolved, ok, err,
  override_by, resolve, memory_get, memory_put,
}

-- Overriding is a monoid with the zero value: chains of overrides may be merged in any grouping.
pub merge_monoid :
    (a b c : Limits)
    → (merge (merge a b) c ≡ merge a (merge b c))
      × (merge a zero_limits ≡ a)
      × (merge zero_limits (merge zero_limits a) ≡ merge zero_limits a)
unfolding merge
merge_monoid a b c = (ground arith, ground arith, ground arith)

abbrev pub IsPositive : Limits → Type 0
IsPositive l =
    (pos 0 <ℤ l.room_cooldown) × (pos 0 <ℤ l.user_room_cooldown) × (0 < l.cat_daily_limit)

merge-IsPositive : (a b : Limits) → IsPositive a → IsPositive (merge a b)
unfolding merge
merge-IsPositive a b p = ground arith

default_global-IsPositive : IsPositive default_global
unfolding default_global
default_global-IsPositive = omega arith

abbrev Good : Resolved → Type 0
Good (ok l) = IsPositive l
Good (err e) = Unit

override_by-Good : (r : Read) (cur : Limits) → IsPositive cur → Good (override_by r cur)
unfolding override_by
override_by-Good (failed e) cur p = tt
override_by-Good (found none) cur p = p
override_by-Good (found (some o)) cur p = merge-IsPositive cur o p

-- The room's own row on top of what the global row gave.
room_override-Good :
    (r : Resolved) (get : Store) (room : String)
    → Good r
    → Good (elim r [
      | err e ↦ err e
      | ok cur ↦ if not (room == "") then override_by (get room) cur else ok cur
    ])
room_override-Good (err e) get room g = tt
room_override-Good (ok cur) get room g = elim (Bool-cases (room == "")) [
  | inl none_given ↦ rw none_given g
  | inr given ↦ rw given (override_by-Good (get room) cur g)
]

resolve-Good : (store : Option Store) (env : Limits) (room : String) → Good (resolve store env room)
unfolding resolve
resolve-Good none env room = merge-IsPositive default_global env default_global-IsPositive
resolve-Good (some get) env room =
    room_override-Good (override_by (get "") (merge default_global env)) get room
      (override_by-Good (get "") _ (merge-IsPositive default_global env default_global-IsPositive))

-- Whatever the environment and the stored overrides hold, every threshold that is resolved is
-- positive: no configuration switches a cooldown or the daily ration off.
pub resolve-IsPositive :
    (store : Option Store) (env : Limits) (room : String) (l : Limits)
    → resolve store env room ≡ ok l
    → IsPositive l
resolve-IsPositive store env room l e = subst Good e (resolve-Good store env room)

-- An override that is put for a room decides each of its positive thresholds there; where it has
-- none, the threshold is the one that the room had with no row of its own.
pub resolve-memory_put :
    (m m' : Dict Limits) (env o : Limits) (room : String)
    → room ≢ ""
    → memory_put m room o ≡ some m'
    → (base : Limits) × (resolve (some (memory_get m)) env "" ≡ ok base)
      × (resolve (some (memory_get m')) env room ≡ ok (merge base o))
unfolding resolve override_by memory_get memory_put
resolve-memory_put m m' env o room ne put = elim (Option-cases (lookup "" m)) [
  | inl absent ↦ (merge default_global env, ground arith, with_row none absent)
  | inr (g, row) ↦ (merge (merge default_global env) g, ground arith, with_row (some g) row)
]
  where
    same : m' ≡ insert room o m
    same = ground arith

    global_row : lookup "" m' ≡ lookup "" m
    global_row = rw same (lookup-insert_ne room "" o m ne)

    own_row : lookup room m' ≡ some o
    own_row = rw same (lookup-insert_self room o m)

    with_row :
        (row : Option Limits)
        → lookup "" m ≡ row
        → resolve (some (memory_get m')) env room
          ≡ ok (
              merge
                (elim row [
                  | none ↦ merge default_global env
                  | some g ↦ merge (merge default_global env) g
                ])
                o)
    with_row none e = ground (arith, global_row, own_row, e, ==_of_ne room "" ne)
    with_row (some g) e = ground (arith, global_row, own_row, e, ==_of_ne room "" ne)
