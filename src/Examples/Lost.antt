-- ===== src/Examples/Lost.antt =====
-- Runs of the theorems on lost connections.
use demo_iot_app_hw.Base.{
  ℕ, ◌≡◌, ◌∙◌, refl, Option, none, some, [], ◌∷◌, ◌++◌, replicate, ok, out_of_fuel, true, arith,
}
use demo_iot_app_hw.Platform.{Timers, Network, mqtt_success, mqtt_failure, puback}
use demo_iot_app_hw.Net.{left_ms, call_read, call_write}
use demo_iot_app_hw.Client.State.{MqttClient}
use demo_iot_app_hw.Client.Receive.{wait_for_specific_packet}
use demo_iot_app_hw.Client.KeepAlive.{IsSilent, wait_for_specific_packet-silent}
use demo_iot_app_hw.Client.Lost.{IsLost, wait_for_specific_packet-lost}
use demo_iot_app_hw.Examples.Fixture.{World, world, timers, paho}
use demo_iot_app_hw.Examples.Client.{ready_client}

-- A network on which every read fails.
abbrev broken : Network World
broken = record {
  mqttread = some (λ buf timeout_ms w. ok (mqtt_failure, buf, w));
  mqttwrite = none;
}

broken-IsLost : IsLost broken (λ w. Unit {0})
unfolding call_read
broken-IsLost = record {
  fails = λ buf timeout_ms w dead. (mqtt_failure, buf, w, refl, refl, refl, tt);
}

wait_for_specific_packet-lost_example :
    wait_for_specific_packet timers paho 1000
      (record ready_client { net = broken })
      puback
      none
      (world [] [])
    ≡ out_of_fuel
wait_for_specific_packet-lost_example =
    wait_for_specific_packet-lost timers paho (λ w. Unit {0}) 1000
      (record ready_client { net = broken }) puback (world [] []) broken-IsLost refl (omega arith)
      (λ e. omega arith) tt

-- The same, with every timer expired; writing still succeeds.
abbrev deaf : Network World
deaf = record {
  mqttread = some (λ buf timeout_ms w. ok (mqtt_failure, buf, w));
  mqttwrite = some (λ bytes timeout_ms w. ok (mqtt_success, record w { log = w.log ++ bytes }));
}

abbrev late : Timers World ℕ
late = record timers { timer_is_expired = λ t w. (true, w) }

left_ms-log : (t : Option ℕ) (w : World) → (left_ms late t w).1.log ≡ w.log
unfolding left_ms
left_ms-log none w = refl
left_ms-log (some t) w = refl

deaf-IsSilent : IsSilent late deaf (λ log w. w.log ≡ log)
unfolding call_read call_write
deaf-IsSilent = record {
  lost = λ log. record {
    fails = λ buf timeout_ms w dead. (mqtt_failure, buf, w, refl, refl, refl, dead);
  };
  expired = λ log t w dead. (refl, dead);
  writes = λ log bytes timeout_ms w dead.
      (mqtt_success, record w { log = w.log ++ bytes }, refl, rw dead refl);
  init = λ log w dead. dead;
  countdown_ms = λ log t ms w dead. dead;
  left = λ log t w dead. left_ms-log t w ∙ dead;
}

abbrev anxious : MqttClient World ℕ
anxious = record ready_client { net = deaf; keep_alive_interval_ms = 60 }

wait_for_specific_packet-silent_example :
    (self' : MqttClient World ℕ) × (w' : World) × (wait_for_specific_packet late paho 1000 anxious
        puback none
        (world [] [])
      ≡ ok (mqtt_failure, self', w'))
    × (w'.log ≡ 192 ∷ 0 ∷ [])
wait_for_specific_packet-silent_example =
    wait_for_specific_packet-silent late paho (λ log w. w.log ≡ log) 1000 anxious puback 2
      (192 ∷ 0 ∷ replicate 14 0) [] (world [] []) (omega arith) deaf-IsSilent (λ e. omega arith)
      (omega arith) (λ e. omega arith) refl (omega arith) (omega arith) refl
