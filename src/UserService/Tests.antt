-- ===== src/UserService/Tests.antt =====
-- Tests of the user service, and its theorems at concrete inputs.
use yunmao.Base.{
  ◌≡◌, refl, String, [], ◌∷◌, pos, second, ◌*◌, lookup, insert, erase, returns, fails, ne_of_==,
  false,
}
use yunmao.Errors.{app, new, auth_login_required}
use yunmao.DeviceService.{rs256}
use yunmao.UserService.{
  User, UserService, World, SmsChallenge, Clocks, complete_sms_login, gen_code,
}
use yunmao.UserService.Login.{LoggedIn, complete_sms_login-LoggedIn}
use yunmao.UserService.Binding.{here}
use yunmao.UserService.Again.{complete_sms_login-again}

abbrev svc : UserService
svc = record {
  jwt = record {
    signed_string = λ key c. returns c.subject;
    parse_with_claims = λ f token. fails "unused";
  };
  signer = record {
    kp = record {
      active = returns (record { kid = "k"; alg = rs256; remote = false });
      verifying_by_kid = λ kid. fails "unused";
    };
    issuer = "yunmao";
  };
  token_ttl = pos (86400 * second);
  audience = "yunmao.gateway";
  hash_phone = λ phone. phone;
}

code_padded : gen_code (0, 1, 2) ≡ "000258"
unfolding gen_code
code_padded = refl

abbrev challenge : String → SmsChallenge
challenge id = record { id = id; phone_hash = "+8613800000000"; code = "000258"; expires_at = 300 }

abbrev world : World
world = record {
  challenges = ("ch_1", challenge "ch_1") ∷ ("ch_2", challenge "ch_2") ∷ [];
  users = record { by_id = []; by_ph = [] };
}

abbrev clocks : Clocks
clocks = record { checked = 100; made = 101; signed = 102 }

abbrev user : User
user = record {
  id = "usr_1";
  nickname = "yunmao_+86138";
  phone_hash = "+8613800000000";
  role = "user";
  created_at = 101;
}

first : (complete_sms_login svc "ch_1" "000258" "usr_1" clocks world).0 ≡ returns (user, "usr_1")
unfolding complete_sms_login lookup
first = refl

abbrev after_first : World
unfolding complete_sms_login
after_first = (complete_sms_login svc "ch_1" "000258" "usr_1" clocks world).1

-- The challenge is used up.
again_refused :
    (complete_sms_login svc "ch_1" "000258" "usr_2" clocks after_first).0
    ≡ fails (app (new auth_login_required "challenge not found"))
unfolding complete_sms_login after_first lookup erase insert new
again_refused = refl

second_login :
    (complete_sms_login svc "ch_2" "000258" "usr_2" clocks after_first).0 ≡ returns (user, "usr_1")
unfolding complete_sms_login after_first lookup erase insert
second_login = refl

complete_sms_login-LoggedIn_example :
    LoggedIn svc "ch_1" "000258" "usr_1" clocks world user "usr_1"
      (complete_sms_login svc "ch_1" "000258" "usr_1" clocks world).1
complete_sms_login-LoggedIn_example =
    complete_sms_login-LoggedIn svc "ch_1" "000258" "usr_1" clocks world user "usr_1" first

complete_sms_login-again_example : user ≡ user
unfolding lookup after_first erase insert complete_sms_login
complete_sms_login-again_example =
    complete_sms_login-again svc "ch_1" "000258" "usr_1" "ch_2" "000258" "usr_2" clocks clocks world
      after_first (challenge "ch_1") (challenge "ch_2") user user "usr_1" "usr_1" first here
      second_login refl refl refl (ne_of_== "+8613800000000" "" refl) (ne_of_== "usr_1" "" refl)
