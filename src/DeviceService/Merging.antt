-- ===== src/DeviceService/Merging.antt =====
-- What is registered or updated is read back.
use yunmao.Base.{
  String, ◌≡◌, ◌≢◌, refl, sym, ap, arith, Option, none, some, Dict, lookup, insert,
  lookup-insert_self, Time, Fallible, returns, fails, ==_of_ne, ◌∙◌,
}
use yunmao.Errors.{GoError}
use yunmao.FeatureFlags.{Json}
use yunmao.DeviceStore.{MemoryStore}
use yunmao.DeviceStore
use yunmao.DeviceService.{
  DeviceService, Device, get, update, merged, wish_or, capability_or, to_service_device,
}

-- The result of a call, if it is not an error.
abbrev pub Returns : {A : Type 0} → (A → Type 0) → Fallible GoError A → Type 0
Returns P (returns a) = P a
Returns P (fails e) = Unit {0}

get_stored :
    (id : String) (d : DeviceStore.Device) (m : MemoryStore)
    → lookup id m ≡ some d
    → (get id m).0 ≡ returns (to_service_device d)
unfolding get DeviceStore.get
get_stored id d m h = ground arith

abbrev kept : Device → DeviceStore.Device → Time → DeviceStore.Device
kept d old t = record (merged d old) { created_at = old.created_at; updated_at = t }

update_found :
    (d : Device) (old : DeviceStore.Device) (t : Time) (m : MemoryStore)
    → d.id ≢ ""
    → lookup d.id m ≡ some old
    → old.id ≡ d.id
    → update d t m ≡ (returns (to_service_device (merged d old)), insert d.id (kept d old t) m)
unfolding update DeviceStore.get DeviceStore.update to_service_device
update_found d old t m number found same =
    let e = ==_of_ne d.id "" number in
    let e' = ==_of_ne old.id "" (λ z. number (sym same ∙ z)) in
    let found' : lookup old.id m ≡ some old = ap (λ i. lookup i m) same ∙ found in
    let place = ap (λ i. insert i (kept d old t) m) same in ground arith

wish_again : (w o : String) → wish_or w (wish_or w o) ≡ wish_or w o
wish_again w o = ground arith

capability_again :
    (c o : Option (Dict Json)) → capability_or c (capability_or c o) ≡ capability_or c o
capability_again none o = refl
capability_again (some c) o = refl

-- A wish that was granted once is granted again.
merged_again :
    (d : Device) (old : DeviceStore.Device) (t : Time)
    → to_service_device (merged d (kept d old t)) ≡ to_service_device (merged d old)
unfolding merged to_service_device
merged_again d old t = simp (wish_again, capability_again)

-- An update returns the merged device, Get reads it, and the same update again returns the same, if
-- the store has a device of the number under the number.
pub update-update :
    (d : Device) (old : DeviceStore.Device) (t t' : Time) (m : MemoryStore)
    → d.id ≢ ""
    → lookup d.id m ≡ some old
    → old.id ≡ d.id
    → ((update d t m).0 ≡ returns (to_service_device (merged d old)))
      × ((get d.id (update d t m).1).0 ≡ (update d t m).0)
      × ((update d t' (update d t m).1).0 ≡ (update d t m).0)
unfolding to_service_device merged
update-update d old t t' m number found same =
    let once = update_found d old t m number found same in
    let there = lookup-insert_self d.id (kept d old t) m in
    let again = update_found d (kept d old t) t' (insert d.id (kept d old t) m) number there same in
    rw once
      (refl, get_stored d.id (kept d old t) _ there, rw again (ap returns (merged_again d old t)))
