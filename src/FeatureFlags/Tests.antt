-- ===== src/FeatureFlags/Tests.antt =====
-- Tests of the feature flags, and their theorems at concrete inputs.
use yunmao.Base.{lookup, ◌≡◌, refl, true, false, if◌then◌else◌, pos, [], ◌∷◌, ◌==◌}
use yunmao.FeatureFlags.{Flag, FlagStore, number, bool_flag, manager_set, refresh, hash100}
use yunmao.FeatureFlags.Switch.{IsNamed, bool_flag-manager_set}

abbrev gray : Flag
gray = record {
  name = "media.webrtc";
  enabled = true;
  scope = "global";
  value = ("gray_percent", number (pos 50)) ∷ [];
  updated_at = 1;
  updated_by = "";
}

abbrev store : FlagStore
store = ("media.webrtc", gray) ∷ []

-- FNV-1a of the empty text, and of one byte.
hash100_empty : hash100 "" ≡ 37
unfolding hash100
hash100_empty = refl

hash100_a : hash100 "a" ≡ 96
unfolding hash100
hash100_a = refl

store-IsNamed : IsNamed store
unfolding lookup
store-IsNamed = (refl, refl, tt)

bool_flag-manager_set_example :
    bool_flag (manager_set (record gray { enabled = false }) 2 store).1 "media.webrtc" true ≡ (
      if "media.webrtc" == "media.webrtc"
      then false
      else bool_flag (refresh store) "media.webrtc" true)
bool_flag-manager_set_example =
    bool_flag-manager_set (record gray { enabled = false }) 2 store "media.webrtc" true
      store-IsNamed
