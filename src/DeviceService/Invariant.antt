-- ===== src/DeviceService/Invariant.antt =====
-- What every history of calls keeps: a device is stored under its number, and no device is lost.
use mathlib.Core.Path.{subst}
use yunmao.Base.{
  ℕ, String, ◌≡◌, refl, sym, ap, arith, Option, none, some, Option-cases, Bool-cases, inl, inr,
  true, false, lookup, insert, lookup-insert, eq_of_==, ◌∙◌, ◌⊎◌, Time, ◌==◌, Fallible, returns,
  fails, Bool, fail_if, ◌>>◌, nat_eq, zero_time, if◌then◌else◌,
}
use yunmao.Errors.{GoError, app, new, system_internal}
use yunmao.DeviceService.Credentials.{Issued, issue_mqtt_credential-Issued}
use yunmao.DeviceStore.{Method, MemoryStore, Device, change, hash_password}
use yunmao.DeviceStore
use yunmao.DeviceService.{
  DeviceService, register, update, merged, registered, bind_room, unbind_room, set_status,
  update_firmware, mark_online, heartbeat_at, to_store_device, is_status,
}
use yunmao.DeviceService.Issuing.{issue_mqtt_credential, MqttCredential}
use yunmao.DeviceService

-- A call of the service on its store, with the clock's answers.
pub data Step (s : DeviceService) : MemoryStore → MemoryStore → Type 0 where
  registers :
      (d : DeviceService.Device) (new_id : String) (now later : Time) (m : MemoryStore)
      → Step s m (register s d new_id now later m).1
  updates : (d : DeviceService.Device) (now : Time) (m : MemoryStore) → Step s m (update d now m).1
  binds : (id room : String) (now : Time) (m : MemoryStore) → Step s m (bind_room id room now m).1
  unbinds : (id : String) (now : Time) (m : MemoryStore) → Step s m (unbind_room id now m).1
  sets :
      (id status : String) (now : Time) (m : MemoryStore) → Step s m (set_status id status now m).1
  targets :
      (id target : String) (now : Time) (m : MemoryStore)
      → Step s m (update_firmware id target now m).1
  marks :
      (id : String) (remaining : ℕ) (now : Time) (m : MemoryStore)
      → Step s m (mark_online id remaining now m)
  beats : (id : String) (at : Time) (m : MemoryStore) → Step s m (heartbeat_at id at m)
  issues :
      (id jti : String) (now later : Time) (m : MemoryStore)
      → Step s m (issue_mqtt_credential s id jti now later m).1

pub data Reaches (s : DeviceService) (m : MemoryStore) : MemoryStore → Type 0 where
  here : Reaches s m m
  step : {m1 m2 : MemoryStore} → Reaches s m m1 → Step s m1 m2 → Reaches s m m2

-- Under a number there is a device of that number, before and after; a device that is there before
-- is there after.
abbrev pub Named : String → Option Device → Type 0
Named k none = Unit {0}
Named k (some d) = d.id ≡ k

abbrev pub Kept : Option Device → Option Device → Type 0
Kept none o = Unit {0}
Kept (some d) none = ⊥
Kept (some d) (some d') = Unit {0}

abbrev pub Keeps : String → MemoryStore → MemoryStore → Type 0
Keeps k m m' = (Named k (lookup k m) → Named k (lookup k m')) × Kept (lookup k m) (lookup k m')

Kept-refl : (o : Option Device) → Kept o o
Kept-refl none = tt
Kept-refl (some d) = tt

Kept-some : (o : Option Device) (d : Device) → Kept o (some d)
Kept-some none d = tt
Kept-some (some _) d = tt

-- What a call does to the store: nothing, or one write, of a device under its number or of a device
-- in place of the one with its number.
abbrev Fits : MemoryStore → String → Device → Type 0
Fits m id d' = (d'.id ≡ id) ⊎ ((d : Device) × (lookup id m ≡ some d) × (d'.id ≡ d.id))

data Effect (m : MemoryStore) : MemoryStore → Type 0 where
  unchanged : {m' : MemoryStore} → m' ≡ m → Effect m m'
  written :
      {m' : MemoryStore} (id : String) (d : Device) → Fits m id d → m' ≡ insert id d m → Effect m m'

insert-Keeps :
    (k id : String) (d : Device) (m : MemoryStore) → Fits m id d → Keeps k m (insert id d m)
insert-Keeps k id d m fit = elim (Bool-cases (id == k)) [
  | inl same ↦
      rw (lookup-insert id k d m)
        (rw same (λ h. named (eq_of_== id k same) fit h, Kept-some (lookup k m) d))
  | inr other ↦ rw (lookup-insert id k d m) (rw other (λ h. h, Kept-refl (lookup k m)))
]
  where
    named : id ≡ k → Fits m id d → Named k (lookup k m) → d.id ≡ k
    named e (inl f) h = f ∙ e
    named e (inr (old, found, f)) h = f ∙ rw (sym (ap (λ x. lookup x m) e) ∙ found) at h

Effect-Keeps : (k : String) {m m' : MemoryStore} → Effect m m' → Keeps k m m'
Effect-Keeps k {m} (unchanged e) = subst (λ x. Keeps k m x) (sym e) (λ h. h, Kept-refl (lookup k m))
Effect-Keeps k {m} (written id d fit e) =
    subst (λ x. Keeps k m x) (sym e) (insert-Keeps k id d m fit)

change-Effect :
    (id : String) (f : Device → Device) (m : MemoryStore)
    → ((d : Device) → (f d).id ≡ d.id)
    → Effect m (change id f m).1
unfolding change
change-Effect id f m h = elim (Option-cases (lookup id m)) [
  | inl e ↦ unchanged (ground arith)
  | inr (d, e) ↦ written id (f d) (inr (d, e, h d)) (ground arith)
]

-- What the store's Create writes.
abbrev pub stamped : Device → Time → Device
stamped d now = record d {
  created_at = if nat_eq d.created_at zero_time then now else d.created_at;
  updated_at = now;
}

register-Effect :
    (s : DeviceService) (d : DeviceService.Device) (new_id : String) (now later : Time)
    (m : MemoryStore)
    → Effect m (register s d new_id now later m).1
unfolding register DeviceStore.create
register-Effect s d new_id now later m =
    let d' = to_store_device (registered s d new_id now) in
    elim (Bool-cases (d.hardware_model == "")) [
      | inl e ↦ unchanged (ground arith)
      | inr n ↦ elim (Bool-cases (d'.id == "")) [
        | inl e ↦ unchanged (ground arith)
        | inr n' ↦ written d'.id (stamped d' later) (inl refl) (ground arith)
      ]
    ]

update-Effect :
    (d : DeviceService.Device) (now : Time) (m : MemoryStore) → Effect m (update d now m).1
unfolding update DeviceStore.get DeviceStore.update
update-Effect d now m = elim (Bool-cases (d.id == "")) [
  | inl e ↦ unchanged (ground arith)
  | inr n ↦ elim (Option-cases (lookup d.id m)) [
    | inl h ↦ unchanged (ground arith)
    | inr (old, h) ↦ elim (Bool-cases ((merged d old).id == "")) [
      | inl e ↦ unchanged (ground arith)
      | inr n' ↦ elim (Option-cases (lookup (merged d old).id m)) [
        | inl h' ↦ unchanged (ground arith)
        | inr (there, h') ↦
            written (merged d old).id
              (record (merged d old) { created_at = there.created_at; updated_at = now }) (inl refl)
              (ground arith)
      ]
    ]
  ]
]

guarded :
    {A : Type 0} {m : MemoryStore} (c : Bool) (e : GoError) (k : Method A)
    → Effect m (k m).1
    → Effect m ((fail_if c e >> k) m).1
guarded true e k h = unchanged refl
guarded false e k h = h

issue-Effect :
    (s : DeviceService) (id jti : String) (now later : Time) (m : MemoryStore)
    → Effect m (issue_mqtt_credential s id jti now later m).1
issue-Effect s id jti now later m =
    issued (issue_mqtt_credential s id jti now later m).0 _
      (issue_mqtt_credential-Issued s id jti now later m)
  where
    issued :
        (r : Fallible GoError MqttCredential) (m' : MemoryStore)
        → Issued s id jti now later m r m'
        → Effect m m'
    issued (fails e) m' h = unchanged h
    issued (returns c) m' (d, _, found, _, _, _, _, _, _, _, _, e) =
        written id _ (inr (d, found, refl)) e

Step-Effect : {s : DeviceService} {m m' : MemoryStore} → Step s m m' → Effect m m'
unfolding bind_room unbind_room set_status update_firmware mark_online heartbeat_at
    DeviceStore.bind_room DeviceStore.unbind_room DeviceStore.set_status
    DeviceStore.set_firmware_target DeviceStore.mark_online
Step-Effect {s} (registers d new_id now later m) = register-Effect s d new_id now later m
Step-Effect (updates d now m) = update-Effect d now m
Step-Effect (binds id room now m) =
    guarded (room == "") (app (new system_internal "room_id required"))
      (DeviceStore.bind_room id room now) (change-Effect id _ m (λ d. refl))
Step-Effect (unbinds id now m) = change-Effect id _ m (λ d. refl)
Step-Effect (sets id status now m) = elim (Bool-cases (is_status status)) [
  | inl e ↦ rw e (change-Effect id _ m (λ d. refl))
  | inr n ↦ rw n (unchanged refl)
]
Step-Effect (targets id target now m) =
    guarded (target == "") (app (new system_internal "target required"))
      (DeviceStore.set_firmware_target id target now) (change-Effect id _ m (λ d. refl))
Step-Effect (marks id remaining now m) = change-Effect id _ m (λ d. refl)
Step-Effect (beats id at m) = change-Effect id _ m (λ d. refl)
Step-Effect {s} (issues id jti now later m) = issue-Effect s id jti now later m

Kept-trans : (a b c : Option Device) → Kept a b → Kept b c → Kept a c
Kept-trans none b c h k = tt
Kept-trans (some a) (some b) c h k = k
Kept-trans (some a) none c h k = absurd h

-- After any history of calls: what is stored under a number carries that number if it did so
-- before, and a number that had a device before has one.
pub Reaches-Keeps :
    (s : DeviceService) (k : String) {m m' : MemoryStore} → Reaches s m m' → Keeps k m m'
Reaches-Keeps s k {m} here = (λ h. h, Kept-refl (lookup k m))
Reaches-Keeps s k {m} {m'} (step {m1} r st) =
    let (named, kept) = Reaches-Keeps s k r in
    let (named', kept') = Effect-Keeps k (Step-Effect st) in
    (λ h. named' (named h), Kept-trans (lookup k m) (lookup k m1) (lookup k m') kept kept')
