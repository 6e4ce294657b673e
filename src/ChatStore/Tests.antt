-- ===== src/ChatStore/Tests.antt =====
-- Tests of the store of chat messages, and its theorem at a concrete input.
use yunmao.Base.{◌≡◌, refl, String, List, [], ◌∷◌, map, Time, lookup, fails}
use yunmao.ChatStore.{Message, MemStore, duplicate_id, store_insert, store_list}

abbrev message : String → Time → String → Message
message id at status = record {
  id = id;
  user_id = "u";
  room_id = "room_demo";
  body = "hello";
  emojis = [];
  moderation_status = status;
  moderation_reason = "";
  client_msg_id = "";
  created_at = at;
}

abbrev three : MemStore
three =
    ("m1", message "m1" 5 "published")
    ∷ ("m2", message "m2" 7 "flagged")
    ∷ ("m3", message "m3" 6 "hidden")
    ∷ []

listed : map (λ m. m.id) (store_list "room_demo" 50 three) ≡ "m2" ∷ "m1" ∷ []
unfolding store_list
listed = refl

listed_one : map (λ m. m.id) (store_list "room_demo" 1 three) ≡ "m2" ∷ []
unfolding store_list
listed_one = refl

inserted_twice : store_insert (message "m1" 9 "published") three ≡ (fails duplicate_id, three)
unfolding store_insert lookup
inserted_twice = refl
