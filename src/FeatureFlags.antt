-- ===== src/FeatureFlags.antt =====
-- Feature flags, go/pkg/yunmao/featureflags/featureflags.go: the in-process store, the manager with
-- its copy of the flags, and the gray release by a hash of the room.
pub mod Switch
mod Tests
use Prim.Native.Char.{code}
use yunmao.Base.{
  ℕ, zero, suc, ◌+◌, ◌*◌, ◌/◌, ◌%◌, String, Bool, true, false, not, ◌||◌, Option, none, some,
  nat_eq, if◌then◌else◌, ℤ, pos, leb_ℤ, ltb_ℤ, two64, List, [], ◌∷◌, ◌++◌, ◌==◌, Dict, lookup,
  insert, Time, zero_time, codes,
}
use yunmao.FeedingService.{Flags}

-- A JSON value in a flag. A number is what `int(t)` makes of it; `null` stands for every value that
-- is neither a number nor an array, and an element of an array is its text, if it is one.
pub data Json : Type 0 where
  number : ℤ → Json
  array : List (Option String) → Json
  null : Json

pub record Flag : Type 0 where
  pub name : String
  pub enabled : Bool
  pub scope : String
  pub value : Dict Json
  pub updated_at : Time
  pub updated_by : String

abbrev pub FlagStore : Type 0
FlagStore = Dict Flag

-- `NewMemoryStore`, from the store that the flags before made; `now` is the clock.
unfoldable pub new_flag_store : List Flag → Time → FlagStore → FlagStore
new_flag_store [] now m = m
new_flag_store (f ∷ fs) now m =
    let f' = record f {
      updated_at = if nat_eq f.updated_at zero_time then now else f.updated_at;
    } in
    new_flag_store fs now (insert f.name f' m)

-- `List`
unfoldable pub list_flags : FlagStore → List Flag
list_flags [] = []
list_flags ((_, f) ∷ m) = f ∷ list_flags m

unfoldable pub set_flag : Flag → Time → FlagStore → FlagStore
set_flag f now m = insert f.name (record f { updated_at = now }) m

-- `refresh`: the cache by the flags' names; a later flag goes over an earlier one.
unfoldable pub refresh_from : List Flag → Dict Flag → Dict Flag
refresh_from [] cache = cache
refresh_from (f ∷ fs) cache = refresh_from fs (insert f.name f cache)

unfoldable pub refresh : FlagStore → Dict Flag
unfolding list_flags refresh_from
refresh m = refresh_from (list_flags m) []

-- The manager over the in-process store: the store and the cache.
unfoldable pub manager_set : Flag → Time → FlagStore → FlagStore × Dict Flag
unfolding set_flag refresh
manager_set f now m = (set_flag f now m, refresh (set_flag f now m))

unfoldable pub get_flag : Dict Flag → String → Flag
get_flag cache name = elim (lookup name cache) [
  | some f ↦ f
  | none ↦ record {
    name = name;
    enabled = false;
    scope = "global";
    value = [];
    updated_at = zero_time;
    updated_by = "";
  }
]

unfoldable pub bool_flag : Dict Flag → String → Bool → Bool
bool_flag cache name def = elim (lookup name cache) [ some f ↦ f.enabled | none ↦ def ]

unfoldable pub number_or : Option Json → ℤ → ℤ
number_or (some (number n)) def = n
number_or _ def = def

unfoldable pub int_flag : Dict Flag → String → String → ℤ → ℤ
unfolding number_or
int_flag cache name key def = elim (lookup name cache) [
  | some f ↦ number_or (lookup key f.value) def
  | none ↦ def
]

texts : List (Option String) → List String
texts [] = []
texts (none ∷ xs) = texts xs
texts (some t ∷ xs) = t ∷ texts xs

unfoldable pub texts_of : Option Json → List String
unfolding texts
texts_of (some (array xs)) = texts xs
texts_of _ = []

unfoldable pub string_slice_flag : Dict Flag → String → String → List String
unfolding texts_of
string_slice_flag cache name key = elim (lookup name cache) [
  | some f ↦ texts_of (lookup key f.value)
  | none ↦ []
]

-- What the feeding service reads of the manager.
unfoldable pub flags_of : Dict Flag → Flags
unfolding bool_flag int_flag string_slice_flag
flags_of cache = record {
  bool = bool_flag cache;
  int = int_flag cache;
  string_slice = string_slice_flag cache;
}

-- `x ^ y` on the lowest bits, as many as there is fuel for.
unfoldable pub xor_bits : ℕ → ℕ → ℕ → ℕ
xor_bits zero x y = 0
xor_bits (suc n) x y =
    let bit : ℕ = if nat_eq (x % 2) (y % 2) then 0 else 1 in bit + 2 * xor_bits n (x / 2) (y / 2)

-- A step of FNV-1a: a byte changes the lowest eight bits of the state.
unfoldable pub hash_step : ℕ → ℕ → ℕ
unfolding xor_bits
hash_step h c = (h / 256 * 256 + xor_bits 8 (h % 256) c) * 1099511628211 % two64

unfoldable pub hash_loop : ℕ → List ℕ → ℕ
unfolding hash_step
hash_loop h [] = h
hash_loop h (c ∷ cs) = hash_loop (hash_step h c) cs

-- The bytes of a code point in UTF-8.
unfoldable pub utf8 : ℕ → List ℕ
utf8 c =
    if nat_eq (c / 128) 0
    then c ∷ []
    else if nat_eq (c / 2048) 0
    then (192 + c / 64) ∷ (128 + c % 64) ∷ []
    else if nat_eq (c / 65536) 0
    then (224 + c / 4096) ∷ (128 + c / 64 % 64) ∷ (128 + c % 64) ∷ []
    else (240 + c / 262144) ∷ (128 + c / 4096 % 64) ∷ (128 + c / 64 % 64) ∷ (128 + c % 64) ∷ []

unfoldable pub bytes : List ℕ → List ℕ
unfolding utf8
bytes [] = []
bytes (c ∷ cs) = utf8 c ++ bytes cs

unfoldable pub hash100 : String → ℕ
unfolding hash_loop bytes
hash100 s = hash_loop 14695981039346656037 (bytes (codes s)) % 100

-- The test of IsRoomInGrayPercent on an enabled flag's percentage.
unfoldable pub in_percent : ℤ → String → Bool
unfolding hash100
in_percent pct room =
    if leb_ℤ (pos 100) pct
    then true
    else if leb_ℤ pct (pos 0)
    then false
    else ltb_ℤ (pos (hash100 room)) pct

unfoldable pub is_room_in_gray_percent : Dict Flag → String → String → Bool
unfolding in_percent number_or
is_room_in_gray_percent cache flag room = elim (lookup flag cache) [
  | none ↦ false
  | some f ↦
      if not f.enabled || room == ""
      then false
      else in_percent (number_or (lookup "gray_percent" f.value) (pos 0)) room
]
