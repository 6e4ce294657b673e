-- ===== src/UserService.antt =====
-- The user service, go/services/user-svc/internal/service/service.go, over the in-process store of
-- go/services/user-svc/internal/store/store.go: logins by a code sent to a phone.
pub mod Login
pub mod Binding
pub mod Again
mod Tests
use yunmao.Base.{
  ℕ, zero, suc, ◌+◌, ◌*◌, ◌/◌, ◌%◌, String, append, Bool, true, false, not, ◌&&◌, Option, none,
  some, ltb, nat_eq, length, if◌then◌else◌, ℤ, pos, leb_ℤ, codes, last_digit, Fallible, returns,
  fails, Action, List, [], ◌∷◌, ◌==◌, Dict, lookup, insert, erase, Time, Duration, second, add_time,
  after,
}
use yunmao.Errors.{
  GoError, AppError, Code, app, plain, new, system_internal, auth_login_required,
  auth_token_expired, user_not_found,
}
use yunmao.FeatureFlags.{bytes}
use yunmao.AuthJwt.{Jwt, Signer, sign_login}

pub record User : Type 0 where
  pub id : String
  pub nickname : String
  pub phone_hash : String
  pub role : String
  pub created_at : Time

-- memoryStore; its AppendLogin does nothing.
pub record MemoryStore : Type 0 where
  pub by_id : Dict User
  pub by_ph : Dict User

unfoldable pub missing : GoError
unfolding new
missing = app (new user_not_found "user not found")

unfoldable pub get_in : String → Dict User → Fallible GoError User
unfolding missing
get_in k m = elim (lookup k m) [ none ↦ fails missing | some u ↦ returns u ]

unfoldable pub upsert : User → Action MemoryStore GoError (Unit {0})
upsert u m = if u.id == "" then (fails (plain "user.id required"), m) else (
  returns tt,
  record {
    by_id = insert u.id u m.by_id;
    by_ph = if u.phone_hash == "" then m.by_ph else insert u.phone_hash u m.by_ph;
  },
)

pub record SmsChallenge : Type 0 where
  pub id : String
  pub phone_hash : String
  pub code : String
  pub expires_at : Time

pub record UserService : Type 0 where
  pub jwt : Jwt
  pub signer : Signer
  pub token_ttl : Duration
  pub audience : String
  pub hash_phone : String → String  -- the SHA-256 sum as 64 hexadecimal digits

unfoldable pub new_service : UserService → UserService
new_service cfg = record cfg {
  token_ttl =
      if leb_ℤ cfg.token_ttl (pos 0) && leb_ℤ (pos 0) cfg.token_ttl
      then pos (86400 * second)
      else cfg.token_ttl;
  audience = if cfg.audience == "" then "yunmao.gateway" else cfg.audience;
}

pub record World : Type 0 where
  pub challenges : Dict SmsChallenge
  pub users : MemoryStore

abbrev pub Method : Type 0 → Type 0
Method A = Action World GoError A

-- `%06d` of the three random bytes modulo a million.
digits : ℕ → ℕ → String
digits zero n = ""
digits (suc k) n = append (digits k (n / 10)) (last_digit n)

unfoldable pub gen_code : ℕ × ℕ × ℕ → String
unfolding digits last_digit
gen_code (a, b, c) = digits 6 ((a * 65536 + b * 256 + c) % 1000000)

-- `buf` is what rand.Read fills or its error; `session` is what ids.New returns.
unfoldable pub start_sms_login :
    UserService
    → String
    → Fallible String (ℕ × ℕ × ℕ)
    → String
    → Time
    → Method (String × String × Duration)
unfolding gen_code bytes add_time new
start_sms_login s phone buf session now w =
    if ltb (length (bytes (codes phone))) 5
    then (fails (app (new system_internal "invalid phone")), w)
    else elim buf [
      | fails e ↦ (fails (plain e), w)
      | returns b ↦
          let id = append "ch_" session in
          (
            returns (id, gen_code b, pos (300 * second)),
            record w {
              challenges =
                  insert id
                    (record {
                      id = id;
                      phone_hash = s.hash_phone phone;
                      code = gen_code b;
                      expires_at = add_time now (pos (300 * second));
                    })
                    w.challenges;
            },
          )
    ]

-- `s[:n]` on a text of ASCII characters, cut at its end.
unfoldable pub prefix : ℕ → String → String
prefix zero s = ""
prefix (suc n) String.[] = ""
prefix (suc n) (String.◌∷◌ c s) = String.◌∷◌ c (prefix n s)

-- The clocks of a login: the test of the expiry, the creation of a user, the signature.
pub record Clocks : Type 0 where
  pub checked : Time
  pub made : Time
  pub signed : Time

unfoldable pub signed_in : UserService → User → Time → Method (User × String)
unfolding sign_login new
signed_in s u now w = elim (sign_login s.jwt s.signer u.id "user" s.audience s.token_ttl now) [
  | fails e ↦ (fails (app (new system_internal (append "sign jwt: " e))), w)
  | returns token ↦ (returns (u, token), w)
]

-- A new user is stored before the token is signed.
unfoldable pub sign_up : UserService → User → Time → Method (User × String)
unfolding upsert signed_in
sign_up s u now w =
    let (r, users) = upsert u w.users in
    elim r [
      | fails e ↦ (fails (app (new system_internal "store user: user.id required")), w)
      | returns _ ↦ signed_in s u now (record w { users = users })
    ]

unfoldable pub new_user : String → String → Time → User
unfolding prefix
new_user id phone_hash now = record {
  id = id;
  nickname = append "yunmao_" (prefix 6 phone_hash);
  phone_hash = phone_hash;
  role = "user";
  created_at = now;
}

-- The login of a phone whose code was right; `new_id` is what ids.New returns.
unfoldable pub login_phone : UserService → String → String → Clocks → Method (User × String)
unfolding get_in sign_up signed_in new_user
login_phone s phone_hash new_id t w = elim (get_in phone_hash w.users.by_ph) [
  | fails _ ↦ sign_up s (new_user new_id phone_hash t.made) t.signed w
  | returns u ↦ signed_in s u t.signed w
]

unfoldable pub complete_sms_login :
    UserService → String → String → String → Clocks → Method (User × String)
unfolding login_phone new
complete_sms_login s challenge code new_id t w = elim (lookup challenge w.challenges) [
  | none ↦ (fails (app (new auth_login_required "challenge not found")), w)
  | some ch ↦
      let used = record w { challenges = erase challenge w.challenges } in
      if after t.checked ch.expires_at
      then (fails (app (new auth_token_expired "challenge expired")), used)
      else if ch.code == code
      then login_phone s ch.phone_hash new_id t used
      else (fails (app (new auth_login_required "code mismatch")), w)
]

-- DevLogin: the user of the number, else the one of the phone, else a new one.
unfoldable pub find_user : String → String → MemoryStore → Option User
find_user id phone_hash m =
    let by_phone = if phone_hash == "" then none else lookup phone_hash m.by_ph in
    elim (if id == "" then none else lookup id m.by_id) [ some u ↦ some u | none ↦ by_phone ]

unfoldable pub dev_login : UserService → String → String → String → Clocks → Method (User × String)
unfolding find_user sign_up signed_in prefix new
dev_login s id phone new_id t w =
    let phone_hash = if phone == "" then "" else s.hash_phone phone in
    let uid = if id == "" then new_id else id in
    if id == "" && phone == ""
    then (fails (app (new system_internal "user_id or phone_e164 required")), w)
    else elim (find_user id phone_hash w.users) [
      | some u ↦ signed_in s u t.signed w
      | none ↦
          sign_up s
            (record {
              id = uid;
              nickname = append "yunmao_" (prefix 6 (if phone_hash == "" then uid else phone_hash));
              phone_hash = phone_hash;
              role = "user";
              created_at = t.made;
            })
            t.signed w
    ]

unfoldable pub get : String → World → Fallible GoError User
unfolding get_in
get id w = get_in id w.users.by_id
