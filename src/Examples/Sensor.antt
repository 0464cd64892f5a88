-- ===== src/Examples/Sensor.antt =====
-- Runs of the theorems on components/Sensor/src/SensorTemp.c.
use demo_iot_app_hw.Base.{
  ℕ, ◌≡◌, refl, List, [], ◌∷◌, ◌++◌, length, drop, pos, negsuc, ok, fault, arith,
}
use demo_iot_app_hw.Platform.Os.{os_success}
use demo_iot_app_hw.Platform.Sensing.{Sensing}
use demo_iot_app_hw.Sensor.{send_rounds}
use demo_iot_app_hw.Sensor.Sending.{IsPort, send_rounds-delivers, send_rounds_negative}

record Dataport : Type 0 where
  memory : List ℕ
  handed : List (List ℕ)

abbrev sensing : Sensing Dataport
sensing = record {
  device = record {
    periodic = λ id ns w. (pos 0, w);
    notify_wait = λ w. w;
    port_size = 4;
    put = λ bytes w. record w { memory = bytes ++ drop (length bytes) w.memory };
  };
  rpc_write = λ w. ok (os_success, record w { handed = w.handed ++ (w.memory ∷ []) });
}

abbrev sensing-IsPort : IsPort sensing
sensing-IsPort = record {
  port = λ w. w.memory;
  calls = λ w. w.handed;
  port-put = λ bytes w h. refl;
  calls-put = λ bytes w. refl;
  rpc = λ w. (os_success, record w { handed = w.handed ++ (w.memory ∷ []) }, refl, refl, refl);
  port-wait = λ w. refl;
  calls-wait = λ w. refl;
  port-periodic = λ id ns w. refl;
  calls-periodic = λ id ns w. refl;
}

abbrev quiet : Dataport
quiet = record { memory = 9 ∷ 9 ∷ 9 ∷ 9 ∷ []; handed = [] }

-- Two rounds with a message of two bytes in an array of three.
send_rounds-delivers_example :
    (w' : Dataport) × (send_rounds sensing 2 (1 ∷ 2 ∷ 3 ∷ []) (pos 2) quiet ≡ ok w')
    × (sensing-IsPort.calls w' ≡ (1 ∷ 2 ∷ 9 ∷ 9 ∷ []) ∷ (1 ∷ 2 ∷ 9 ∷ 9 ∷ []) ∷ [])
send_rounds-delivers_example =
    send_rounds-delivers sensing sensing-IsPort 2 2 (1 ∷ 2 ∷ 3 ∷ []) quiet (omega arith)
      (omega arith)

send_rounds_negative_example : send_rounds sensing 1 (1 ∷ 2 ∷ 3 ∷ []) (negsuc 1) quiet ≡ fault
send_rounds_negative_example =
    send_rounds_negative sensing 0 1 (1 ∷ 2 ∷ 3 ∷ []) quiet (omega arith) (omega arith)
