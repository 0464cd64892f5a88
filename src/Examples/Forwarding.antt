-- ===== src/Examples/Forwarding.antt =====
-- A run of the theorem on the way from the configuration over the sensor to the CloudConnector.
use demo_iot_app_hw.Base.{
  ℕ, ◌≡◌, refl, none, List, [], ◌∷◌, ◌++◌, length, length-append, length-replicate, drop, replicate,
  pos, ok, arith,
}
use demo_iot_app_hw.Platform.{PublishStore}
use demo_iot_app_hw.Platform.Packets.{
  store_dup, store_retained, store_packet_id, store_topic, store_payload,
}
use demo_iot_app_hw.Platform.Os.{os_success}
use demo_iot_app_hw.Platform.Sensing.{Sensing}
use demo_iot_app_hw.Config.Setting.{setting}
use demo_iot_app_hw.Config.Names.{initialize_name, compare_domain_name}
use demo_iot_app_hw.Net.{read_header}
use demo_iot_app_hw.Connector.Calls.{HasInput}
use demo_iot_app_hw.Connector.Forward.{Carries}
use demo_iot_app_hw.Sensor.{SensorNames, sensor_run}
use demo_iot_app_hw.Sensor.Sending.{IsPort}
use demo_iot_app_hw.Sensor.Values.{sensor_publish, HasValues}
use demo_iot_app_hw.Sensor.Configured.{IsReadBack, port_view, sensor_run-Carries}
use demo_iot_app_hw.Examples.Fixture.{World, world, paho, os_errors, are_errors}
use demo_iot_app_hw.Examples.Config.{service, contents, service_keeps}
use demo_iot_app_hw.Examples.Connector.{semaphore, connector}

record Dataport : Type 0 where
  memory : List ℕ
  handed : List (List ℕ)

abbrev sensing : Sensing Dataport
sensing = record {
  device = record {
    periodic = λ id ns w. (pos 0, w);
    notify_wait = λ w. w;
    port_size = 1024;
    put = λ bytes w. record w { memory = bytes ++ drop (length bytes) w.memory };
  };
  rpc_write = λ w. ok (os_success, record w { handed = w.handed ++ (w.memory ∷ []) });
}

abbrev sensing-IsPort : IsPort sensing
sensing-IsPort = record {
  port = λ w. w.memory;
  calls = λ w. w.handed;
  port-put = λ bytes w h. refl;
  calls-put = λ bytes w. refl;
  rpc = λ w. (os_success, record w { handed = w.handed ++ (w.memory ∷ []) }, refl, refl, refl);
  port-wait = λ w. refl;
  calls-wait = λ w. refl;
  port-periodic = λ id ns w. refl;
  calls-periodic = λ id ns w. refl;
}

abbrev pub names : SensorNames
names = record { domain_sensor = 98 ∷ []; mqtt_payload_name = 1 ∷ []; mqtt_topic_name = 2 ∷ [] }

-- "b" under the topic "b".
abbrev pub packet : List ℕ
packet = 50 ∷ 6 ∷ 0 ∷ 1 ∷ 98 ∷ 0 ∷ 1 ∷ 98 ∷ []

abbrev pub before : List PublishStore
before = store_dup 0 ∷ []

abbrev pub after : List PublishStore
after = store_retained 0 ∷ store_topic (98 ∷ []) ∷ store_packet_id 1 ∷ store_payload (98 ∷ []) ∷ []

pub read_back : IsReadBack paho (sensor_publish (98 ∷ []) (98 ∷ [])) before after
unfolding read_header
read_back = record {
  kind = λ buf size len out old ser short.
      let l : 8 ≡ len = cc in let o : packet ++ drop 8 buf ≡ out = cc in rw (← l, ← o) refl;
  parses = λ buf size len out old ser short long.
      let l : 8 ≡ len = cc in let o : packet ++ drop 8 buf ≡ out = cc in rw (← l, ← o) refl;
  others = (tt, (tt, (tt, (tt, tt))));
  topic = λ msg. refl;
  retained = λ msg. refl;
  payload = λ msg. refl;
}

abbrev quiet : Dataport
quiet = record { memory = replicate 1024 0; handed = [] }

abbrev cloud_side : World
cloud_side = world [] (packet ++ replicate 1016 0)

has_input : HasInput semaphore connector cloud_side
has_input = (
  length-replicate {A = ℕ} 1024 0,
  omega (arith, length-append packet (replicate 1016 0), length-replicate {A = ℕ} 1016 0),
)

pub has_values :
    {W : Type 0}
    → HasValues os_errors
        (service {W = W})
        0
        contents
        names
        (98 ∷ [])
        (98 ∷ [])
        (0 ∷ 0 ∷ [])
        (0 ∷ 0 ∷ [])
unfolding setting initialize_name compare_domain_name
has_values = record {
  payload = refl;
  topic = refl;
  is = ((λ e. omega arith), tt);
  is' = ((λ e. omega arith), tt);
}

sensor_run-Carries_example :
    (w' : Dataport) × (sensor_run os_errors service names paho sensing 3 2
        (replicate 128 0)
        (replicate 128 0)
        (replicate 320 0)
        quiet
      ≡ ok (none, w'))
    × (w'.handed ≡ (packet ++ replicate 1016 0) ∷ (packet ++ replicate 1016 0) ∷ [])
    × Carries paho semaphore connector cloud_side before 1 after (98 ∷ [])
sensor_run-Carries_example =
    sensor_run-Carries os_errors service 0 contents names paho sensing sensing-IsPort
      (service_keeps (port_view sensing sensing-IsPort)) semaphore connector cloud_side before after
      3 2 8 (replicate 128 0) (replicate 128 0) (replicate 320 0) (98 ∷ []) (98 ∷ []) (0 ∷ 0 ∷ [])
      (0 ∷ 0 ∷ []) (packet ++ replicate 312 0) quiet are_errors (omega arith)
      (length-replicate {A = ℕ} 128 0) (length-replicate {A = ℕ} 128 0) refl refl refl has_values
      refl (omega (arith, length-append packet (replicate 312 0))) (omega arith) (omega arith)
      read_back refl has_input (omega arith)
