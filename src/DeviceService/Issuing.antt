-- ===== src/DeviceService/Issuing.antt =====
-- The MQTT credentials of IssueMQTTCredential.
use yunmao.Base.{
  String, append, none, some, ℤ, pos, ◌-ℤ◌, Fallible, returns, fails, pure, ◌>>=◌, ◌>>◌, Time,
  add_time, second, ◌/◌,
}
use yunmao.Errors.{GoError, app, plain, new, system_dependency_unavailable}
use yunmao.DeviceStore.{MemoryStore, Method, ListFilter}
use yunmao.DeviceStore
use yunmao.DeviceService.{Alg, hs256, rs256, other, SigningKey, Claims, DeviceService}

-- `t.Unix()`
unfoldable pub unix : Time → ℤ
unfolding ◌-ℤ◌
unix t = pos (t / second) -ℤ pos 62135596800

pub record MqttCredential : Type 0 where
  pub device_id : String
  pub username : String
  pub password : String
  pub expires_at : Time
  pub algorithm : Alg
  pub key_kid : String

abbrev username_of : String → String
username_of id = append "device:" id

-- The claims of a credential; `jti` is what randomJTI draws.
unfoldable pub claims_of : DeviceService → String → String → Time → Claims
unfolding unix
claims_of s id jti now = record {
  sub = id;
  iss = s.issuer;
  aud = s.audience;
  iat = unix now;
  exp = unix (add_time now s.cred_ttl);
  scope = "device";
  jti = jti;
}

-- The switch over the algorithm.
unfoldable pub check_alg : Alg → Fallible GoError (Unit {0})
check_alg hs256 =
    fails (plain "device-svc: authjwt: HS256 path removed (ADR-0019, since 第七轮); use RS256/KMS")
check_alg rs256 = returns tt
check_alg (other a) = fails (plain (append "device-svc: unsupported alg " a))

abbrev lift : {A : Type 0} → Fallible GoError A → Method A
lift r m = (r, m)

-- The signed credential of a device, before it is stored.
unfoldable pub sign_credential : DeviceService → SigningKey → String → String → Time → Method String
unfolding check_alg claims_of
sign_credential s key id jti now = do
  lift (check_alg key.alg)
  lift (s.sign key (claims_of s id jti now))

unfoldable pub issue_with :
    DeviceService
    → Fallible GoError SigningKey
    → String
    → String
    → Time
    → Time
    → Method MqttCredential
unfolding sign_credential DeviceStore.get DeviceStore.set_mqtt_credential
issue_with s active id jti now later = do
  _ ← DeviceStore.get id
  key ← lift active
  password ← sign_credential s key id jti now
  DeviceStore.set_mqtt_credential s.sha256_hex id (username_of id) password
      (add_time now s.cred_ttl) later
  pure (record {
    device_id = id;
    username = username_of id;
    password = password;
    expires_at = add_time now s.cred_ttl;
    algorithm = key.alg;
    key_kid = key.kid;
  })

unfoldable pub issue_mqtt_credential :
    DeviceService → String → String → Time → Time → Method MqttCredential
unfolding issue_with new
issue_mqtt_credential s id jti now later m = elim s.active [
  | none ↦ (fails (app (new system_dependency_unavailable "key provider not configured")), m)
  | some active ↦ issue_with s active id jti now later m
]
