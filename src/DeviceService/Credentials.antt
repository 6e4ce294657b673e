-- ===== src/DeviceService/Credentials.antt =====
-- What issuing an MQTT credential does on every branch.
use mathlib.Core.Path.{subst}
use yunmao.Base.{
  sym, ◌⊎◌, append, add_time, String, ◌≡◌, refl, arith, none, some, Option-cases, Fallible, returns,
  fails, inl, inr, lookup, insert, Time, ap, ◌∙◌,
}
use yunmao.Errors.{GoError, app, new, system_dependency_unavailable}
use yunmao.DeviceStore.{MemoryStore, change, hash_password}
use yunmao.DeviceStore
use yunmao.DeviceService.{DeviceService, Claims, SigningKey, Alg, hs256, rs256, other}
use yunmao.DeviceService.Issuing.{
  MqttCredential, sign_credential, issue_with, issue_mqtt_credential, check_alg, claims_of, unix,
}

-- The stored device after a credential was issued for it.
abbrev pub with_credential :
    DeviceService → MqttCredential → Time → DeviceStore.Device → DeviceStore.Device
with_credential s c now d = record d {
  mqtt_username = c.username;
  mqtt_credential_hash = hash_password s.sha256_hex c.username c.password;
  mqtt_credential_expires_at = c.expires_at;
  updated_at = now;
}

-- The claims of a credential for a device, with the service's issuer, audience and time to live.
abbrev pub device_claims : DeviceService → String → String → Time → Claims
device_claims s id jti now = record {
  sub = id;
  iss = s.issuer;
  aud = s.audience;
  iat = unix now;
  exp = unix (add_time now s.cred_ttl);
  scope = "device";
  jti = jti;
}

-- After an error nothing has changed. A credential is the signature of the active key, an RS256 key,
-- on the claims for the device; the device is stored and keeps the credential's name, hash and
-- expiry, and no other device changes.
abbrev pub Issued :
    DeviceService
    → String
    → String
    → Time
    → Time
    → MemoryStore
    → Fallible GoError MqttCredential
    → MemoryStore
    → Type 0
Issued s id jti now later m (fails e) m' = m' ≡ m
Issued s id jti now later m (returns c) m' =
    (d : DeviceStore.Device) × (key : SigningKey) × (lookup id m ≡ some d)
    × (s.active ≡ some (returns key))
    × (key.alg ≡ rs256)
    × (s.sign key (device_claims s id jti now) ≡ returns c.password)
    × (c.device_id ≡ id)
    × (c.username ≡ append "device:" id)
    × (c.expires_at ≡ add_time now s.cred_ttl)
    × (c.algorithm ≡ rs256)
    × (c.key_kid ≡ key.kid)
    × (m' ≡ insert id (with_credential s c later d) m)

abbrev no_provider : GoError
unfolding new
no_provider = app (new system_dependency_unavailable "key provider not configured")

-- The credential that a password makes.
abbrev credential : DeviceService → SigningKey → String → String → Time → MqttCredential
credential s key id password now = record {
  device_id = id;
  username = append "device:" id;
  password = password;
  expires_at = add_time now s.cred_ttl;
  algorithm = key.alg;
  key_kid = key.kid;
}

Fallible-cases :
    {A : Type 0} (r : Fallible GoError A)
    → ((e : GoError) × (r ≡ fails e)) ⊎ ((a : A) × (r ≡ returns a))
Fallible-cases (fails e) = inl (e, refl)
Fallible-cases (returns a) = inr (a, refl)

alg_cases : (a : Alg) → ((e : GoError) × (check_alg a ≡ fails e)) ⊎ (a ≡ rs256)
unfolding check_alg
alg_cases hs256 = inl (_, refl)
alg_cases rs256 = inr refl
alg_cases (other a) = inl (_, refl)

get_found :
    (id : String) (m : MemoryStore) (d : DeviceStore.Device)
    → lookup id m ≡ some d
    → DeviceStore.get id m ≡ (returns d, m)
unfolding DeviceStore.get
get_found id m d h = ground arith

get_missing :
    (id : String) (m : MemoryStore)
    → lookup id m ≡ none
    → DeviceStore.get id m ≡ (fails DeviceStore.not_found, m)
unfolding DeviceStore.get
get_missing id m h = ground arith

module _ (s : DeviceService) (id jti : String) (now later : Time) (m : MemoryStore) where
  unstored :
      (active : Fallible GoError SigningKey)
      → lookup id m ≡ none
      → issue_with s active id jti now later m ≡ (fails DeviceStore.not_found, m)
  unfolding issue_with
  unstored active h = ground (arith, get_missing id m h)

  no_key :
      (e : GoError) (d : DeviceStore.Device)
      → lookup id m ≡ some d
      → issue_with s (fails e) id jti now later m ≡ (fails e, m)
  unfolding issue_with
  no_key e d h = ground (arith, get_found id m d h)

  refused :
      (key : SigningKey) (d : DeviceStore.Device) (e : GoError)
      → lookup id m ≡ some d
      → sign_credential s key id jti now m ≡ (fails e, m)
      → issue_with s (returns key) id jti now later m ≡ (fails e, m)
  unfolding issue_with
  refused key d e h q = ground (arith, get_found id m d h)

  granted :
      (key : SigningKey) (d : DeviceStore.Device) (password : String)
      → lookup id m ≡ some d
      → sign_credential s key id jti now m ≡ (returns password, m)
      → issue_with s (returns key) id jti now later m ≡ (
        returns (credential s key id password now),
        insert id (with_credential s (credential s key id password now) later d) m,
      )
  unfolding issue_with change
  granted key d password h q = ground (arith, get_found id m d h)

  -- Signing leaves the store alone, and gives a password by RS256 only.
  sign_credential-cases :
      (key : SigningKey)
      → ((e : GoError) × (sign_credential s key id jti now m ≡ (fails e, m)))
        ⊎ ((p : String) × (sign_credential s key id jti now m ≡ (returns p, m))
            × (key.alg ≡ rs256)
            × (s.sign key (device_claims s id jti now) ≡ returns p))
  unfolding sign_credential claims_of
  sign_credential-cases key = elim (alg_cases key.alg) [
    | inl (e, h) ↦ inl (e, ground arith)
    | inr h ↦ elim (Fallible-cases (s.sign key (device_claims s id jti now))) [
      | inl (e, q) ↦ inl (e, ground arith)
      | inr (p, q) ↦ inr (p, ground arith, h, q)
    ]
  ]

  -- The cases of a call with a key, as equations.
  abbrev ResultOf : Fallible GoError SigningKey → Type 0
  ResultOf active =
      ((e : GoError) × (issue_with s active id jti now later m ≡ (fails e, m)))
      ⊎ ((key : SigningKey) × (d : DeviceStore.Device) × (p : String) × (active ≡ returns key)
          × (lookup id m ≡ some d)
          × (key.alg ≡ rs256)
          × (s.sign key (device_claims s id jti now) ≡ returns p)
          × (issue_with s active id jti now later m ≡ (
            returns (credential s key id p now),
            insert id (with_credential s (credential s key id p now) later d) m,
          )))

  with_device :
      (active : Fallible GoError SigningKey) (d : DeviceStore.Device)
      → lookup id m ≡ some d
      → ResultOf active
  with_device (fails e) d h = inl (e, no_key e d h)
  with_device (returns key) d h = elim (sign_credential-cases key) [
    | inl (e, q) ↦ inl (e, refused key d e h q)
    | inr (p, q, a, z) ↦ inr (key, d, p, refl, h, a, z, granted key d p h q)
  ]

  result_of : (active : Fallible GoError SigningKey) → ResultOf active
  result_of active = elim (Option-cases (lookup id m)) [
    | inl h ↦ inl (DeviceStore.not_found, unstored active h)
    | inr (d, h) ↦ with_device active d h
  ]

Issued-result :
    (s : DeviceService) (id jti : String) (now later : Time) (m : MemoryStore)
    (r q : Fallible GoError MqttCredential × MemoryStore)
    → r ≡ q
    → Issued s id jti now later m q.0 q.1
    → Issued s id jti now later m r.0 r.1
Issued-result s id jti now later m r q e h =
    subst (λ x. Issued s id jti now later m x.0 x.1) (sym e) h

issue_with-Issued :
    (s : DeviceService) (active : Fallible GoError SigningKey) (id jti : String) (now later : Time)
    (m : MemoryStore)
    → s.active ≡ some active
    → let r = issue_with s active id jti now later m in Issued s id jti now later m r.0 r.1
issue_with-Issued s active id jti now later m there = elim (result_of s id jti now later m active) [
  | inl (e, q) ↦ Issued-result s id jti now later m _ (fails e, m) q refl
  | inr (key, d, p, k, h, a, z, q) ↦
      Issued-result s id jti now later m _ _ q
        (d, key, h, there ∙ ap some k, a, z, refl, refl, refl, a, refl, refl)
]

-- Issuing a credential changes nothing if it ends with an error. Otherwise the device is stored, the
-- active key is an RS256 key, and the password is that key's signature on claims with the device as
-- the subject, the service's issuer and audience, the scope of a device and an expiry after the time
-- to live; the name is that of the device, and exactly the credential's name, hash and expiry and the
-- time of the change are written to that device.
pub issue_mqtt_credential-Issued :
    (s : DeviceService) (id jti : String) (now later : Time) (m : MemoryStore)
    → let r = issue_mqtt_credential s id jti now later m in Issued s id jti now later m r.0 r.1
unfolding issue_mqtt_credential
issue_mqtt_credential-Issued s id jti now later m = elim (Option-cases s.active) [
  | inl e ↦ Issued-result s id jti now later m _ (fails no_provider, m) (ground arith) refl
  | inr (active, e) ↦
      Issued-result s id jti now later m _ (issue_with s active id jti now later m) (ground arith)
        (issue_with-Issued s active id jti now later m e)
]
