-- ===== src/Examples/System.antt =====
-- A run of the theorem on the Sensor and the CloudConnector together: two rounds.
use demo_iot_app_hw.Base.{
  ℕ, ◌≤◌, ◌≡◌, ◌≢◌, ◌∙◌, refl, inl, inr, ℤ, none, some, List, [], ◌∷◌, ◌++◌, length, length-append,
  length-drop, length-take, length-replicate, take, take-append, drop, replicate, pos, ok, arith,
  false,
}
use demo_iot_app_hw.Platform.Os.{os_success}
use demo_iot_app_hw.Platform.Camkes.{Semaphore}
use demo_iot_app_hw.Platform.Sensing.{Device}
use demo_iot_app_hw.Connector.State.{CcFsm}
use demo_iot_app_hw.Config.Names.{initialize_name, compare_domain_name}
use demo_iot_app_hw.Config.Setting.{setting}
use demo_iot_app_hw.Sensor.{SensorNames, send_rounds, sensor_run}
use demo_iot_app_hw.Sensor.Returns.{sensor_run-returns}
use demo_iot_app_hw.System.{connected}
use demo_iot_app_hw.System.Replies.{Reply, Answers, IsWritten, IsServing}
use demo_iot_app_hw.System.Call.{IsJoined}
use demo_iot_app_hw.System.Offline.{IsDisconnect, IsOffline, send_rounds-offline}
use demo_iot_app_hw.System.Forwarding.{cloud_view, sensor_run-published}
use demo_iot_app_hw.Examples.Fixture.{World, world, timers, link, paho, os_errors, are_errors}
use demo_iot_app_hw.Examples.Client.{
  ready_client-IsReady, ping_frame, puback_frame, puback_frame-Awaits,
}
use demo_iot_app_hw.Examples.Config.{service, contents, service_keeps}
use demo_iot_app_hw.Examples.Connector.{managed, managed-IsManaged, connector}
use demo_iot_app_hw.Examples.Forwarding.{names, packet, before, after, read_back, has_values}

-- A dataport of 1024 bytes.
abbrev pub shared : World → List ℕ
shared w = take 1024 (w.port ++ replicate 1024 0)

length-shared : (w : World) → length (shared w) ≡ 1024
length-shared w =
    length-take 1024 (w.port ++ replicate 1024 0)
    ∙ omega (arith, length-append w.port (replicate 1024 0), length-replicate {A = ℕ} 1024 0)

take_whole : (xs more : List ℕ) (n : ℕ) → length xs ≡ n → take n (xs ++ more) ≡ xs
take_whole xs more n e = rw (← e) (take-append xs more)

abbrev pub semaphore : Semaphore World
semaphore = record {
  sem_wait = λ w. (os_success, w);
  sem_post = λ w. (os_success, w);
  sensor_port = shared;
}

abbrev pub device : Device World
device = record {
  periodic = λ id ns w. (pos 0, w);
  notify_wait = λ w. w;
  port_size = 1024;
  put = λ bytes w. record w { port = bytes ++ drop (length bytes) (shared w) };
}

pub joined : IsJoined device semaphore (λ w. w.stream) (λ w. w.log)
joined = record {
  port-put = λ bytes w h.
      take_whole (bytes ++ drop (length bytes) (shared w)) (replicate 1024 0) 1024 (
        omega (
          arith,
          length-append bytes (drop (length bytes) (shared w)),
          length-drop (length bytes) (shared w),
          length-shared w,
        ));
  port-sem_wait = λ w. refl;
  port_long = λ w. omega (arith, length-shared w);
  put = λ bytes w. (refl, refl);
  periodic = λ id ns w. (refl, refl);
  notify_wait = λ w. (refl, refl);
  sem_wait = λ w. (refl, refl);
  sem_post = λ w. (refl, refl);
}

-- "b" under the topic "b", with QoS 1.
abbrev pub cloud_packet : ℕ → List ℕ
cloud_packet id = 50 ∷ 6 ∷ 0 ∷ 1 ∷ 98 ∷ 0 ∷ id ∷ 98 ∷ []

pub is_written : (size : ℕ) → 8 ≤ size → IsWritten paho size (98 ∷ []) (98 ∷ []) cloud_packet
is_written size enough = record {
  serialize = λ buf id full lo hi. (
    cloud_packet id ++ drop 8 buf,
    refl,
    omega (arith, length-append (cloud_packet id) (drop 8 buf), length-drop 8 buf, full),
    take-append (cloud_packet id) (drop 8 buf),
  );
  some_bytes = λ id. omega arith;
  fits = λ id. omega arith;
}

abbrev reply : Reply
reply = record {
  skipped = ping_frame ∷ [];
  ack = puback_frame;
  read = record { packet_id = 2; dup = 0; type = 4 };
}

answers : Answers paho 2 8 reply
answers = record {
  few = omega arith;
  awaits = puback_frame-Awaits;
  reads = λ old. refl;
  kind = refl;
}

serving : IsServing connector 3
serving = record {
  ready = ready_client-IsReady;
  sendbuf = length-replicate {A = ℕ} 16 0;
  input = length-replicate {A = ℕ} 1024 0;
  room = omega (arith, length-replicate {A = ℕ} 16 0);
}

-- A PINGRESP and a PUBACK for each round, and one byte more.
abbrev start : World
start = world (208 ∷ 0 ∷ 64 ∷ 2 ∷ 0 ∷ 2 ∷ 208 ∷ 0 ∷ 64 ∷ 2 ∷ 0 ∷ 2 ∷ 208 ∷ []) []

sensor_run-published_example :
    (self' : CcFsm World ℕ) × (w' : World) × (sensor_run os_errors service names paho
        (connected timers paho managed semaphore os_errors device 2)
        3
        2
        (replicate 128 0)
        (replicate 128 0)
        (replicate 320 0)
        (connector, start)
      ≡ ok (none, (self', w')))
    × (w'.stream ≡ 208 ∷ [])
    × (w'.log ≡ cloud_packet 2 ++ cloud_packet 3)
sensor_run-published_example =
    sensor_run-published timers paho managed managed-IsManaged semaphore os_errors device (98 ∷ [])
      (98 ∷ []) before after read_back ((λ e. omega arith), tt) service 0 contents names
      cloud_packet 3 2 8 (replicate 128 0) (replicate 128 0) (replicate 320 0) (0 ∷ 0 ∷ [])
      (0 ∷ 0 ∷ []) (packet ++ replicate 312 0) (reply ∷ reply ∷ []) connector link start (208 ∷ [])
      are_errors (omega arith) (length-replicate {A = ℕ} 128 0) (length-replicate {A = ℕ} 128 0)
      refl refl refl (service_keeps (cloud_view (λ w. w.stream) (λ w. w.log))) has_values joined
      (is_written 16 (omega arith)) refl (omega arith)
      (omega (arith, length-append packet (replicate 312 0))) (omega arith) serving
      (answers, (answers, tt)) refl

is_disconnect : IsDisconnect paho 16 (224 ∷ 0 ∷ [])
is_disconnect = record {
  serialize =
      λ buf size. (224 ∷ 0 ∷ drop 2 buf, refl, omega (arith, length-drop 2 buf, size), refl);
  some_bytes = omega arith;
  fits = omega arith;
}

abbrev offline : CcFsm World ℕ
offline = record connector { client = record connector.client { is_connected = false } }

offline-IsOffline : IsOffline offline 3
offline-IsOffline = record {
  closed = refl;
  sendbuf = length-replicate {A = ℕ} 16 0;
  input = length-replicate {A = ℕ} 1024 0;
  room = omega (arith, length-replicate {A = ℕ} 16 0);
}

send_rounds-offline_example :
    (self' : CcFsm World ℕ) × (w' : World) × (send_rounds
        (connected timers paho managed semaphore os_errors device 2)
        2
        (packet ++ replicate 312 0)
        (pos 8)
        (offline, start)
      ≡ ok (self', w'))
    × (self'.client.is_connected ≡ false)
    × (w'.stream ≡ start.stream)
    × (w'.log ≡ 224 ∷ 0 ∷ 224 ∷ 0 ∷ [])
send_rounds-offline_example =
    send_rounds-offline timers paho managed managed-IsManaged semaphore os_errors device (98 ∷ [])
      (98 ∷ []) before after read_back ((λ e. omega arith), tt) (224 ∷ 0 ∷ []) 2 (replicate 320 0)
      (packet ++ replicate 312 0) 8 2 offline link start joined is_disconnect refl (omega arith)
      (omega (arith, length-append packet (replicate 312 0))) (omega arith) offline-IsOffline

-- A configuration without the sensor's domain.
abbrev no_names : SensorNames
no_names = record { domain_sensor = 99 ∷ []; mqtt_payload_name = 1 ∷ []; mqtt_topic_name = 2 ∷ [] }

sensor_run-returns_example :
    (rc : ℤ) × (w' : CcFsm World ℕ × World) × (sensor_run os_errors service no_names paho
        (connected timers paho managed semaphore os_errors device 2)
        3
        2
        (replicate 128 0)
        (replicate 128 0)
        (replicate 320 0)
        (connector, start)
      ≡ ok (some rc, w'))
    × (rc ≢ os_success)
    × (cloud_view (λ w. w.stream) (λ w. w.log) w' ≡ (connector, start.stream, []))
unfolding setting initialize_name compare_domain_name
sensor_run-returns_example =
    sensor_run-returns os_errors service 0 contents no_names paho
      (connected timers paho managed semaphore os_errors device 2)
      (cloud_view (λ w. w.stream) (λ w. w.log))
      (service_keeps (cloud_view (λ w. w.stream) (λ w. w.log))) (λ id ns w. refl) 3 2
      (replicate 128 0) (replicate 128 0) (replicate 320 0) (connector, start) are_errors
      (omega arith) (length-replicate {A = ℕ} 128 0) (length-replicate {A = ℕ} 128 0) refl
      (inr (inr (inl refl)))
