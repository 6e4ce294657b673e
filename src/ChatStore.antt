-- ===== src/ChatStore.antt =====
-- The in-process store of chat messages, memStore of go/services/chat-svc/internal/store/store.go.
pub mod Listing
pub mod Hiding
mod Tests
use yunmao.Base.{
  ℕ, String, Bool, true, false, ◌&&◌, ◌||◌, Option, none, some, ltb, length, if◌then◌else◌,
  Fallible, returns, fails, Action, List, [], ◌∷◌, ◌==◌, Dict, lookup, insert, Time,
}
use yunmao.DeviceStore.{take}

pub record Message : Type 0 where
  pub id : String
  pub user_id : String
  pub room_id : String
  pub body : String
  pub emojis : List String
  pub moderation_status : String
  pub moderation_reason : String
  pub client_msg_id : String
  pub created_at : Time

abbrev pub MemStore : Type 0
MemStore = Dict Message

pub data StoreError : Type 0 where
  duplicate_id not_found : StoreError

unfoldable pub error_text : StoreError → String
error_text duplicate_id = "duplicate id"
error_text not_found = "chat: not found"

unfoldable pub store_insert : Message → Action MemStore StoreError Message
store_insert m s = elim (lookup m.id s) [
  | some _ ↦ (fails duplicate_id, s)
  | none ↦ (returns m, insert m.id m s)
]

unfoldable pub store_get : String → MemStore → Fallible StoreError Message
store_get id s = elim (lookup id s) [ none ↦ fails not_found | some m ↦ returns m ]

unfoldable pub store_moderate : String → String → String → Action MemStore StoreError Message
store_moderate id status reason s = elim (lookup id s) [
  | none ↦ (fails not_found, s)
  | some m ↦
      let m' = record m { moderation_status = status; moderation_reason = reason } in
      (returns m', insert id m' s)
]

unfoldable pub is_shown : String → Message → Bool
is_shown room m =
    m.room_id == room && (m.moderation_status == "published" || m.moderation_status == "flagged")

unfoldable pub shown : String → MemStore → List Message
unfolding is_shown
shown room [] = []
shown room ((_, m) ∷ s) = let rest = shown room s in if is_shown room m then m ∷ rest else rest

-- `sort.Slice`, the last message first; what the code leaves open is the order of messages of one
-- instant, which here is the order of the map.
unfoldable pub place : Message → List Message → List Message
place m [] = m ∷ []
place m (x ∷ xs) =
    let rest = place m xs in if ltb m.created_at x.created_at then x ∷ rest else m ∷ x ∷ xs

unfoldable pub sorted : List Message → List Message
unfolding place
sorted [] = []
sorted (m ∷ ms) = place m (sorted ms)

unfoldable pub store_list : String → ℕ → MemStore → List Message
unfolding shown sorted take
store_list room limit s =
    let out = sorted (shown room s) in if ltb limit (length out) then take limit out else out
