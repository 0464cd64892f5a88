-- ===== src/Examples/Whole.antt =====
-- A run of the theorem on the whole system: the CloudConnector starts, and the Sensor makes two rounds.
use demo_iot_app_hw.Base.{
  ℕ, ◌≡◌, refl, true, inl, inr, none, some, List, [], ◌∷◌, ◌++◌, length, length-append, length-drop,
  length-replicate, drop, replicate, pos, ok, arith,
}
use demo_iot_app_hw.Platform.Os.{os_success}
use demo_iot_app_hw.Config.Names.{initialize_name, compare_domain_name}
use demo_iot_app_hw.Config.Setting.{setting}
use demo_iot_app_hw.Tls.Opening.{IsOpening, Shakes}
use demo_iot_app_hw.Connector.State.{CcFsm}
use demo_iot_app_hw.Connector.Setup.{run}
use demo_iot_app_hw.Connector.Account.{options_of}
use demo_iot_app_hw.Connector.Options.{with_found, found}
use demo_iot_app_hw.Connector.Established.{Greeting, Greets, IsConnect, Posts, both_ways}
use demo_iot_app_hw.Sensor.{sensor_run}
use demo_iot_app_hw.System.{connected}
use demo_iot_app_hw.System.Forwarding.{cloud_view}
use demo_iot_app_hw.System.Replies.{replies_bytes, IsServing}
use demo_iot_app_hw.System.Started.{connected_state, run-connected}
use demo_iot_app_hw.System.Whole.{IsStarting, run-published}
use demo_iot_app_hw.Examples.Fixture.{world, paho, os_errors, are_errors}
use demo_iot_app_hw.Examples.Config.{service, contents, service_keeps}
use demo_iot_app_hw.Examples.Connector.{managed, managed-IsManaged}
use demo_iot_app_hw.Examples.Forwarding
use demo_iot_app_hw.Examples.Forwarding.{packet, before, after, read_back, has_values}
use demo_iot_app_hw.Examples.Start.{names, arrays, arrays-IsSized, values}
use demo_iot_app_hw.Examples.System
use demo_iot_app_hw.Examples.Cloud.{Cloud, tls, live, prompt}
use demo_iot_app_hw.Examples.OverTls.{timers, semaphore, device, joined, patient, reply, answers}

are_found : found os_errors (service {W = Cloud}) 0 contents names ≡ some values
unfolding setting initialize_name compare_domain_name
are_found = refl

opening : IsOpening tls (both_ways live.incoming live.peer) 0 1
opening = record {
  crypto = λ w. (refl, refl);
  library = λ cert w. (refl, refl);
  starting = λ w. 0;
  starting_few = λ w. omega arith;
  status = λ w. inl (refl, refl);
  create = λ w. (refl, refl, refl);
  connect = λ addr port w. (refl, refl);
  waiting = λ w. 0;
  waiting_few = λ w. omega arith;
  event = λ w. (refl, refl, refl, inr (refl, refl, refl, λ e. omega arith));
}

shakes : Shakes tls (both_ways live.incoming live.peer) os_success
shakes = record { answer = λ w. (refl, refl) }

posts : Posts semaphore (both_ways live.incoming live.peer)
posts = record { good = λ w. refl; kept = λ w. refl }

-- The client id is "b".
abbrev connect_packet : List ℕ
connect_packet = 16 ∷ 3 ∷ 0 ∷ 1 ∷ 98 ∷ []

abbrev is_connect :
    (old : List ℕ)
    → length old ≡ 1024
    → IsConnect paho 1024
        (options_of names (with_found arrays values) paho.connect_defaults)
        old
        connect_packet
is_connect old size = record {
  out = connect_packet ++ drop 5 old;
  serialize = refl;
  some_bytes = omega arith;
  fits = omega arith;
  full = omega (arith, length-append connect_packet (drop 5 old), length-drop 5 old);
  front = refl;
}

abbrev greeting : Greeting
greeting = record {
  skipped = [];
  ack = record { header = 32; body = 0 ∷ 0 ∷ [] };
  read = record { rc = 0; session_present = 0 };
}

greets : Greets paho 2050 1024 greeting
greets = record {
  few = omega arith;
  awaits = record {
    others = tt;
    readable = record { small = omega arith; fits = omega arith; encoded = refl };
    kind = refl;
  };
  reads = λ old. refl;
}

starting : IsStarting (service {W = CcFsm Cloud ℕ × Cloud}) 0 device
starting = record { made = λ s. refl; same = λ s. refl; started = λ w. refl }

-- A CONNACK, then a PINGRESP and a PUBACK for each round, and one byte more.
abbrev start : Cloud
start = record {
  to_peer = [];
  from_peer = 32 ∷ 2 ∷ 0 ∷ 0 ∷ 208 ∷ 0 ∷ 64 ∷ 2 ∷ 0 ∷ 2 ∷ 208 ∷ 0 ∷ 64 ∷ 2 ∷ 0 ∷ 2 ∷ 208 ∷ [];
  busy = true;
  time = 0;
  board = world [] [];
}

abbrev after_start : Cloud → Cloud → CcFsm Cloud ℕ
after_start w1 w2 =
    connected_state os_errors service names tls timers paho semaphore live 2050 arrays values
      (connect_packet ++ drop 5 (replicate 1024 0)) greeting w1 w2

run-connected_example :
    (w1 : Cloud) × (w2 : Cloud) × (w' : Cloud) × (run os_errors service names tls timers paho
        semaphore 2050 arrays start
      ≡ ok (pos 0, some (after_start w1 w2), w'))
    × IsServing (after_start w1 w2) 1024
    × (w'.from_peer ≡ replies_bytes (reply ∷ reply ∷ []) ++ (208 ∷ []))
    × (w'.to_peer ≡ connect_packet)
run-connected_example =
    run-connected os_errors service names tls timers paho semaphore live 0 contents values 98 0 1
      2049 2050 arrays greeting connect_packet (replies_bytes (reply ∷ reply ∷ []) ++ (208 ∷ []))
      start are_errors (omega arith) arrays-IsSized (refl, refl)
      (service_keeps (both_ways live.incoming live.peer)) are_found refl (λ w. refl) (prompt 1024)
      (patient 2049 (omega arith)) opening shakes (omega arith) posts
      (is_connect (replicate 1024 0) (length-replicate {A = ℕ} 1024 0)) greets refl

run-published_example :
    (self1 : CcFsm Cloud ℕ) × (w1 : Cloud) × (self2 : CcFsm Cloud ℕ) × (w2 : Cloud) × (run os_errors
        service names tls timers paho semaphore 2050 arrays start
      ≡ ok (pos 0, some self1, w1))
    × (sensor_run os_errors service Forwarding.names paho
          (connected timers paho managed semaphore os_errors device 2)
          3
          2
          (replicate 128 0)
          (replicate 128 0)
          (replicate 320 0)
          (self1, w1)
        ≡ ok (none, (self2, w2)))
    × (w2.from_peer ≡ 208 ∷ [])
    × (w2.to_peer ≡ connect_packet ++ (System.cloud_packet 2 ++ System.cloud_packet 3))
run-published_example =
    run-published timers paho managed managed-IsManaged semaphore os_errors device (98 ∷ [])
      (98 ∷ []) before after read_back ((λ e. omega arith), tt) service names tls live 0 contents
      values 98 0 1 2049 2050 arrays greeting connect_packet service 0 contents Forwarding.names
      System.cloud_packet 3 2 8 (replicate 128 0) (replicate 128 0) (replicate 320 0) (0 ∷ 0 ∷ [])
      (0 ∷ 0 ∷ []) (packet ++ replicate 312 0) (reply ∷ reply ∷ []) (208 ∷ []) start are_errors
      (omega arith) arrays-IsSized (refl, refl) (service_keeps (both_ways live.incoming live.peer))
      are_found refl (λ w. refl) (prompt 1024) (patient 2049 (omega arith)) opening shakes
      (omega arith) posts (is_connect (replicate 1024 0) (length-replicate {A = ℕ} 1024 0)) greets
      (omega arith) (length-replicate {A = ℕ} 128 0) (length-replicate {A = ℕ} 128 0) starting
      (service_keeps (cloud_view live.incoming live.peer)) has_values joined
      (System.is_written 1024 (omega arith)) refl (omega arith)
      (omega (arith, length-append packet (replicate 312 0))) (omega arith) (omega arith)
      (answers 1024 (omega arith), (answers 1024 (omega arith), tt)) refl
