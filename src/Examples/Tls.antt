-- ===== src/Examples/Tls.antt =====
-- Runs of the theorems on components/CloudConnector/src/glue_tls_mqtt.c.
use demo_iot_app_hw.Base.{
  ℕ, zero, suc, ◌+◌, ◌<◌, ◌≡◌, ◌⊎◌, Bool, true, false, List, [], ◌∷◌, if◌then◌else◌, negsuc, ok,
  arith,
}
use demo_iot_app_hw.Platform.{mqtt_failure}
use demo_iot_app_hw.Tls.{as_u64, get_time_ms, tls_mqtt_read}
use demo_iot_app_hw.Tls.Clock.{IsResponsive}
use demo_iot_app_hw.Tls.Read.{IsStored, tls_mqtt_read-IsStored}
use demo_iot_app_hw.Examples.Fixture.{world, os_errors}
use demo_iot_app_hw.Examples.Cloud.{Cloud, tls, live, read}

abbrev waits_for : Bool → ℕ
waits_for busy = if busy then 1 else 0

waits_few : (busy : Bool) → waits_for busy < 2
waits_few true = omega arith
waits_few false = omega arith

-- A read is kept waiting only by a busy session.
read-waits :
    (busy : Bool) (n : ℕ) (bytes : List ℕ)
    → 0 < n
    → (read busy n bytes).0 ≡ os_errors.would_block
    → 0 < waits_for busy
read-waits true n bytes some_bytes block = omega arith
read-waits false zero bytes some_bytes block = absurd (omega arith)
read-waits false (suc n) [] some_bytes block = ground arith
read-waits false (suc n) (b ∷ bytes) some_bytes block = ground arith

responsive : IsResponsive os_errors tls 1
unfolding get_time_ms
responsive = record {
  waits = λ w. waits_for w.busy;
  waits_few = λ w. omega (arith, waits_few w.busy);
  blocked = λ n w some_bytes block. read-waits w.busy n w.from_peer some_bytes block;
}

abbrev session : Cloud
session = record {
  to_peer = [];
  from_peer = 1 ∷ 2 ∷ 3 ∷ [];
  busy = true;
  time = 5;
  board = world [] [];
}

-- Without a timeout four bytes are asked for, of which three come.
tls_mqtt_read-IsStored_example :
    (tls_mqtt_read os_errors tls 10 (9 ∷ 9 ∷ 9 ∷ 9 ∷ []) (negsuc 0) session
      ≡ ok (mqtt_failure, 9 ∷ 9 ∷ 9 ∷ 9 ∷ [], (get_time_ms os_errors tls session).1))
    ⊎ IsStored os_errors tls live
        ((get_time_ms os_errors tls session).0 + as_u64 (negsuc 0))
        session
        []
        4
        (tls_mqtt_read os_errors tls 10 (9 ∷ 9 ∷ 9 ∷ 9 ∷ []) (negsuc 0) session)
tls_mqtt_read-IsStored_example =
    tls_mqtt_read-IsStored os_errors tls live responsive 10 (9 ∷ 9 ∷ 9 ∷ 9 ∷ []) (negsuc 0) session
      (omega arith) (omega arith)
