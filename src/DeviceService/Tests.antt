-- ===== src/DeviceService/Tests.antt =====
-- Tests of the device service, and its theorems at concrete inputs.
use yunmao.Base.{◌≡◌, refl, [], ◌∷◌, pos, some, lookup, returns, second, ◌*◌, true}
use yunmao.DeviceStore.{MemoryStore, demo_device}
use yunmao.DeviceService.{
  Device, DeviceService, SigningKey, rs256, hs256, register, mark_online, to_service_device,
}
use yunmao.DeviceService.Issuing.{issue_mqtt_credential}
use yunmao.DeviceService.Credentials.{Issued, issue_mqtt_credential-Issued}
use yunmao.DeviceService.Invariant.{Reaches, here, step, marks, registers, Keeps, Reaches-Keeps}

abbrev key : SigningKey
key = record { kid = "k1"; alg = rs256; remote = true }

abbrev svc : DeviceService
svc = record {
  active = some (returns key);
  sign = λ k c. returns "jwt";
  sha256_hex = λ s. s;
  cred_ttl = pos (43200 * second);
  issuer = "yunmao.device-svc";
  audience = "yunmao.emqx";
  region_id = "global";
}

abbrev start : MemoryStore
unfolding demo_device
start = ("dev_demo", demo_device 7) ∷ []

abbrev feeder : Device
unfolding to_service_device demo_device
feeder = record (to_service_device (demo_device 7)) { id = ""; online_status = ""; owner_id = "" }

issue_mqtt_credential-Issued_example :
    Issued svc "dev_demo" "j" 8 9 start
      (issue_mqtt_credential svc "dev_demo" "j" 8 9 start).0
      (issue_mqtt_credential svc "dev_demo" "j" 8 9 start).1
issue_mqtt_credential-Issued_example = issue_mqtt_credential-Issued svc "dev_demo" "j" 8 9 start

registered_then_marked :
    Reaches svc start (mark_online "dev_2" 5 9 (register svc feeder "dev_2" 8 8 start).1)
registered_then_marked = step (step here (registers feeder "dev_2" 8 8 start)) (marks "dev_2" 5 9 _)

Reaches-Keeps_example :
    Keeps "dev_2" start (mark_online "dev_2" 5 9 (register svc feeder "dev_2" 8 8 start).1)
Reaches-Keeps_example = Reaches-Keeps svc "dev_2" registered_then_marked

abbrev wish : Device
unfolding to_service_device demo_device
wish = record (to_service_device (demo_device 7)) { firmware_version = "2.0.0" }

hs256_refused :
    (issue_mqtt_credential
      (record svc { active = some (returns (record key { alg = hs256 })) })
      "dev_demo"
      "j"
      8
      9
      start).1
    ≡ start
unfolding issue_mqtt_credential lookup start
hs256_refused = refl
