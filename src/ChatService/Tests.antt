-- ===== src/ChatService/Tests.antt =====
-- Tests of the chat service, and its theorems at concrete inputs.
use yunmao.Base.{
  ◌≡◌, refl, [], true, false, some, pos, second, ◌*◌, lookup, insert, returns, fails, add_time,
}
use yunmao.Errors.{app, new, system_rate_limited}
use yunmao.Cache.Memory.{MemoryStore, memory_store, gc}
use yunmao.ChatStore.{Message}
use yunmao.ChatStore.Hiding.{Without}
use yunmao.ChatService.{ChatService, World, SendInput, send, moderate, list}
use yunmao.ChatText.{trim_space, itoa, count_of}
use yunmao.ChatService.Sending.{Sent, send-Sent}
use yunmao.ChatService.Moderation.{start, sends, list-moderate}

abbrev svc : ChatService MemoryStore
svc = record {
  filter = λ text. (text, false, "");
  rate = some memory_store;
  rate_max = pos 3;
  rate_win = pos (5 * second);
  max_body = pos 256;
  source = "chat-svc@dev";
  publishes = true;
}

abbrev empty : World MemoryStore
empty = record { messages = []; rate_state = record { m = []; now = 1000 }; events = [] }

abbrev hello : SendInput
hello = record {
  user_id = "u";
  room_id = "room_demo";
  body = " hello ";
  emojis = [];
  client_msg_id = "";
}

trimmed : trim_space " a b\n" ≡ "a b"
unfolding trim_space
trimmed = refl

printed : itoa (pos 120) ≡ "120"
unfolding itoa
printed = refl

counted : count_of (some "120") ≡ pos 120
unfolding count_of
counted = refl

abbrev after_three : World MemoryStore
unfolding send
after_three = (send svc hello "m3" 9 (send svc hello "m2" 9 (send svc hello "m1" 9 empty).1).1).1

-- The fourth message of a window is refused.
limited :
    (send svc hello "m4" 9 after_three).0 ≡ fails (app (new system_rate_limited "rate limited"))
unfolding send after_three gc lookup insert new memory_store add_time
limited = refl

send-Sent_example :
    Sent svc hello "m1" 9 empty (send svc hello "m1" 9 empty).0 (send svc hello "m1" 9 empty).1
send-Sent_example = send-Sent svc hello "m1" 9 empty

abbrev one : World MemoryStore
unfolding send
one = (send svc hello "m1" 9 empty).1

abbrev hidden : Message
hidden = record {
  id = "m1";
  user_id = "u";
  room_id = "room_demo";
  body = "hello";
  emojis = [];
  moderation_status = "hidden";
  moderation_reason = "";
  client_msg_id = "";
  created_at = 9;
}

hides : (moderate svc "m1" "hidden" "" one).0 ≡ returns hidden
unfolding moderate one gc lookup insert memory_store
hides = refl

list-moderate_example :
    Without "m1" (list "room_demo" (pos 10) (moderate svc "m1" "hidden" "" one).1)
unfolding one
list-moderate_example =
    list-moderate svc one "room_demo" (pos 10) "m1" "hidden" "" hidden
      (sends hello "m1" 9 (start {w = empty} refl)) refl hides
