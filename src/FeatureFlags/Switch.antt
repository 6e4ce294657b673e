-- ===== src/FeatureFlags/Switch.antt =====
-- A flag that is set is read, through the store and the refreshed cache.
use yunmao.Base.{
  ◌≡◌, refl, sym, ◌∙◌, ap, String, Bool, none, some, if◌then◌else◌, arith, [], ◌∷◌, ◌==◌, eq_iff,
  eq_of_==, ==_comm, Dict, lookup, insert, lookup-insert, Time, Bool-cases, inl, inr,
}
use yunmao.FeatureFlags.{
  Flag, FlagStore, set_flag, refresh, refresh_from, list_flags, manager_set, bool_flag,
}

-- Every flag is stored under its name.
abbrev pub IsNamed : FlagStore → Type 0
IsNamed [] = Unit {0}
IsNamed ((k, f) ∷ m) = (f.name ≡ k) × (lookup k m ≡ none) × IsNamed m

refresh_from_lem :
    (m : FlagStore) (cache : Dict Flag) (k : String)
    → IsNamed m
    → lookup k (refresh_from (list_flags m) cache)
      ≡ elim (lookup k m) [ some f ↦ some f | none ↦ lookup k cache ]
unfolding refresh_from list_flags lookup
refresh_from_lem [] cache k h = refl
refresh_from_lem ((j, f) ∷ m) cache k (e, new, h) =
    let stored : lookup k (insert f.name f cache) ≡ (if j == k then some f else lookup k cache) =
      lookup-insert f.name k f cache ∙ ap (λ x. if x == k then some f else lookup k cache) e in
    ground (arith, stored, new, eq_iff j k, refresh_from_lem m (insert f.name f cache) k h)

-- The cache of the manager has what the store has.
lookup-refresh : (m : FlagStore) (k : String) → IsNamed m → lookup k (refresh m) ≡ lookup k m
unfolding refresh lookup
lookup-refresh m k h = refresh_from_lem m [] k h ∙ ground arith

insert-IsNamed :
    (k : String) (f : Flag) (m : FlagStore) → f.name ≡ k → IsNamed m → IsNamed (insert k f m)
unfolding insert lookup
insert-IsNamed k f [] e h = (e, refl, tt)
insert-IsNamed k f ((j, g) ∷ m) e (e', new, h) = elim (Bool-cases (j == k)) [
  | inl same ↦ rw same (e, rw (sym (eq_of_== j k same)) new, h)
  | inr other ↦ rw other (
    e',
    lookup-insert k j f m ∙ ground (arith, ==_comm j k, other, new),
    insert-IsNamed k f m e h,
  )
]

-- After Set the manager reads the flag's switch, and every other flag as before, if every flag of
-- the store is stored once and under its name.
pub bool_flag-manager_set :
    (f : Flag) (now : Time) (m : FlagStore) (name : String) (def : Bool)
    → IsNamed m
    → bool_flag (manager_set f now m).1 name def
      ≡ (if f.name == name then f.enabled else bool_flag (refresh m) name def)
unfolding bool_flag manager_set set_flag
bool_flag-manager_set f now m name def h =
    let f' = record f { updated_at = now } in
    let a = lookup-refresh (insert f.name f' m) name (insert-IsNamed f.name f' m refl h) in
    let b = lookup-refresh m name h in ground (arith, a, b, lookup-insert f.name name f' m)
