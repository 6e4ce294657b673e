-- ===== src/AuthJwt.antt =====
-- Tokens, go/pkg/yunmao/authjwt/jwt.go: the signer and the verifier over a key provider. The JWT
-- library is an argument: `signed_string` signs claims with a key, and `parse_with_claims` reads a
-- token by a function that gives the key for the algorithm and the key number in the token's header.
use yunmao.Base.{
  String, append, Bool, Option, none, some, if◌then◌else◌, Fallible, returns, fails, ◌==◌, Time,
  Duration, add_time,
}
use yunmao.DeviceService.{Alg, hs256, rs256, other, SigningKey}

pub data Kind : Type 0 where
  login room_subscription : Kind

pub record Claims : Type 0 where
  pub subject : String
  pub audience : String
  pub issuer : String
  pub issued_at : Time
  pub expires_at : Time
  pub scope : String
  pub kind : Kind
  pub room : String

-- `is_rsa` says that the material is an RSA public key.
pub record VerifyingKey : Type 0 where
  pub kid : String
  pub alg : Alg
  pub is_rsa : Bool

pub record Jwt : Type 0 where
  pub signed_string : SigningKey → Claims → Fallible String String
  pub parse_with_claims :
      (String → String → Fallible String VerifyingKey) → String → Fallible String (Claims × Bool)

pub record KeyProvider : Type 0 where
  pub active : Fallible String SigningKey
  pub verifying_by_kid : String → Fallible String VerifyingKey

pub record Signer : Type 0 where
  pub kp : KeyProvider
  pub issuer : String

abbrev pub err_hs256_removed : String
err_hs256_removed = "authjwt: HS256 path removed (ADR-0019, since 第七轮); use RS256/KMS"

unfoldable pub new_signer_from_provider : Option KeyProvider → String → Fallible String Signer
new_signer_from_provider none issuer = fails "authjwt: nil KeyProvider"
new_signer_from_provider (some kp) issuer =
    if issuer == ""
    then fails "authjwt: issuer required"
    else returns (record { kp = kp; issuer = issuer })

unfoldable pub sign_with : Jwt → SigningKey → Alg → Claims → Fallible String String
sign_with l key hs256 c = fails err_hs256_removed
sign_with l key rs256 c = l.signed_string key c
sign_with l key (other a) c = fails (append "authjwt: unsupported alg " a)

unfoldable pub sign_claims : Jwt → Signer → Claims → Fallible String String
unfolding sign_with
sign_claims l s c = elim s.kp.active [ fails e ↦ fails e | returns key ↦ sign_with l key key.alg c ]

unfoldable pub sign_login :
    Jwt → Signer → String → String → String → Duration → Time → Fallible String String
unfolding sign_claims add_time
sign_login l s subject scope audience ttl now = sign_claims l s (record {
  subject = subject;
  audience = audience;
  issuer = s.issuer;
  issued_at = now;
  expires_at = add_time now ttl;
  scope = scope;
  kind = login;
  room = "";
})

unfoldable pub room_claims : Signer → String → String → String → String → Duration → Time → Claims
unfolding add_time
room_claims s subject scope room audience ttl now = record {
  subject = subject;
  audience = audience;
  issuer = s.issuer;
  issued_at = now;
  expires_at = add_time now ttl;
  scope = scope;
  kind = room_subscription;
  room = room;
}

unfoldable pub sign_room_subscription :
    Jwt → Signer → String → String → String → String → Duration → Time → Fallible String String
unfolding sign_claims room_claims
sign_room_subscription l s subject scope room audience ttl now =
    if room == ""
    then fails "authjwt: room required for room_subscription token"
    else sign_claims l s (room_claims s subject scope room audience ttl now)

-- The switch over the algorithm of the key.
unfoldable pub key_by_alg : String → VerifyingKey → Alg → Fallible String VerifyingKey
key_by_alg alg vk hs256 = fails err_hs256_removed
key_by_alg alg vk rs256 =
    if alg == "RS256"
    then if vk.is_rsa then returns vk else fails "authjwt: RS verifying key not *rsa.PublicKey"
    else fails (append "authjwt: unexpected alg " (append alg ", want RS256"))
key_by_alg alg vk (other a) = fails (append "authjwt: unsupported alg " a)

-- The function that gives the key of a token.
unfoldable pub key_of : KeyProvider → String → String → Fallible String VerifyingKey
unfolding key_by_alg
key_of kp alg kid =
    if alg == "HS256" then fails err_hs256_removed else elim (kp.verifying_by_kid kid) [
      | fails e ↦ fails e
      | returns vk ↦ key_by_alg alg vk vk.alg
    ]

unfoldable pub parse : Jwt → KeyProvider → String → Fallible String Claims
unfolding key_of
parse l kp token = elim (l.parse_with_claims (key_of kp) token) [
  | fails e ↦ fails e
  | returns r ↦ if r.1 then returns r.0 else fails "authjwt: invalid token"
]
