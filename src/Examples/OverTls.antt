-- ===== src/Examples/OverTls.antt =====
-- A run of the theorem on the whole way to the peer of the TLS session: two rounds.
use demo_iot_app_hw.Base.{
  ℕ, ◌≤◌, ◌*◌, ◌≡◌, refl, none, true, false, [], ◌∷◌, ◌++◌, length-append, length-replicate,
  replicate, pos, ok, arith,
}
use demo_iot_app_hw.Platform.{Timers}
use demo_iot_app_hw.Platform.Os.{os_success}
use demo_iot_app_hw.Platform.Camkes.{Semaphore}
use demo_iot_app_hw.Platform.Sensing.{Device}
use demo_iot_app_hw.Connector.State.{CcFsm}
use demo_iot_app_hw.Sensor.{sensor_run}
use demo_iot_app_hw.Tls.{wan}
use demo_iot_app_hw.Tls.Wan.{IsPatient}
use demo_iot_app_hw.System.{connected}
use demo_iot_app_hw.System.Replies.{Reply, Answers, IsServing}
use demo_iot_app_hw.System.Call.{IsJoined}
use demo_iot_app_hw.System.Forwarding.{cloud_view}
use demo_iot_app_hw.System.OverTls.{over, sensor_run-over_tls}
use demo_iot_app_hw.Examples.Fixture.{world, paho, os_errors, are_errors}
use demo_iot_app_hw.Examples.Client.{ping_frame, puback_frame}
use demo_iot_app_hw.Examples.Config.{service, contents, service_keeps}
use demo_iot_app_hw.Examples.Connector.{managed, managed-IsManaged}
use demo_iot_app_hw.Examples.Forwarding.{names, packet, before, after, read_back, has_values}
use demo_iot_app_hw.Examples.System
use demo_iot_app_hw.Examples.Cloud.{Cloud, tls, live, prompt}

abbrev pub timers : Timers Cloud ℕ
timers = record {
  timer_init = λ w. (0, w);
  timer_countdown_ms = λ t ms w. (ms, w);
  timer_countdown = λ t s w. (s * 1000, w);
  timer_left_ms = λ t w. (pos t, w);
  timer_is_expired = λ t w. (false, w);
}

pub patient : (slack : ℕ) → slack ≤ 300000 → IsPatient timers live 300000 slack
patient slack small = record {
  limited = refl;
  enough = λ w. (omega arith, refl, refl);
  incoming-timer_countdown = λ t s w. refl;
  peer-timer_countdown = λ t s w. refl;
}

abbrev pub semaphore : Semaphore Cloud
semaphore = record {
  sem_wait = λ w. (os_success, w);
  sem_post = λ w. (os_success, w);
  sensor_port = λ w. System.shared w.board;
}

abbrev pub device : Device Cloud
device = record {
  periodic = λ id ns w. (pos 0, w);
  notify_wait = λ w. w;
  port_size = 1024;
  put = λ bytes w. record w { board = System.device.put bytes w.board };
}

pub joined : IsJoined device semaphore (λ w. w.from_peer) (λ w. w.to_peer)
joined = record {
  port-put = λ bytes w h. System.joined.port-put bytes w.board h;
  port-sem_wait = λ w. refl;
  port_long = λ w. System.joined.port_long w.board;
  put = λ bytes w. (refl, refl);
  periodic = λ id ns w. (refl, refl);
  notify_wait = λ w. (refl, refl);
  sem_wait = λ w. (refl, refl);
  sem_post = λ w. (refl, refl);
}

abbrev pub reply : Reply
reply = record {
  skipped = ping_frame ∷ [];
  ack = puback_frame;
  read = record { packet_id = 2; dup = 0; type = 4 };
}

pub answers : (size : ℕ) → 4 ≤ size → Answers paho 2 size reply
answers size enough = record {
  few = omega arith;
  awaits = record {
    others = (
      (record { small = omega arith; fits = omega arith; encoded = refl }, (λ e. omega arith)),
      tt,
    );
    readable = record { small = omega arith; fits = omega arith; encoded = refl };
    kind = refl;
  };
  reads = λ old. refl;
  kind = refl;
}

-- The CloudConnector, with no network object yet.
abbrev connector : CcFsm Cloud ℕ
connector = record {
  client = record {
    net = record { mqttread = none; mqttwrite = none };
    sendbuf = replicate 16 0;
    sendbuf_size = 16;
    readbuf = replicate 16 0;
    readbuf_size = 16;
    send_timeout_ms = 300000;
    keep_alive_interval_ms = 0;
    next_packet_id = 1;
    is_ping_outstanding = false;
    is_connected = true;
    timer_last_send = 0;
  };
  server = record {
    sendbuf = replicate 16 0;
    sendbuf_size = 16;
    readbuf = replicate 1024 0;
    readbuf_size = 1024;
    net = record { mqttread = none; mqttwrite = none };
    socket_timeout_ms = 300000;
  };
  msg = record { qos = 0; retained = 0; dup = 0; id = 0; payload = [] };
  sz_topic = 0;
  buffer = replicate 16 0;
  cnt_connect = 0;
  cnt_publish = 0;
}

serving : IsServing (over connector (wan os_errors tls 34)) 3
serving = record {
  ready = record {
    connected = refl;
    no_keep_alive = refl;
    size = refl;
    limit = omega arith;
    id_low = omega arith;
    id_high = omega arith;
  };
  sendbuf = length-replicate {A = ℕ} 16 0;
  input = length-replicate {A = ℕ} 1024 0;
  room = omega (arith, length-replicate {A = ℕ} 16 0);
}

-- A PINGRESP and a PUBACK for each round, and one byte more.
abbrev start : Cloud
start = record {
  to_peer = [];
  from_peer = 208 ∷ 0 ∷ 64 ∷ 2 ∷ 0 ∷ 2 ∷ 208 ∷ 0 ∷ 64 ∷ 2 ∷ 0 ∷ 2 ∷ 208 ∷ [];
  busy = true;
  time = 0;
  board = world [] [];
}

sensor_run-over_tls_example :
    (self' : CcFsm Cloud ℕ) × (w' : Cloud) × (sensor_run os_errors service names paho
        (connected timers paho managed semaphore os_errors device 2)
        3
        2
        (replicate 128 0)
        (replicate 128 0)
        (replicate 320 0)
        (over connector (wan os_errors tls 34), start)
      ≡ ok (none, (self', w')))
    × (w'.from_peer ≡ 208 ∷ [])
    × (w'.to_peer ≡ System.cloud_packet 2 ++ System.cloud_packet 3)
sensor_run-over_tls_example =
    sensor_run-over_tls timers paho managed managed-IsManaged semaphore os_errors device (98 ∷ [])
      (98 ∷ []) before after read_back ((λ e. omega arith), tt) service 0 contents names
      System.cloud_packet 3 2 8 (replicate 128 0) (replicate 128 0) (replicate 320 0) (0 ∷ 0 ∷ [])
      (0 ∷ 0 ∷ []) (packet ++ replicate 312 0) (reply ∷ reply ∷ []) connector start (208 ∷ []) tls
      live 34 33 (prompt 16) (patient 33 (omega arith)) (omega arith) (omega arith) (omega arith)
      are_errors (omega arith) (length-replicate {A = ℕ} 128 0) (length-replicate {A = ℕ} 128 0)
      refl refl refl (service_keeps (cloud_view live.incoming live.peer)) has_values joined
      (System.is_written 16 (omega arith)) refl (omega arith)
      (omega (arith, length-append packet (replicate 312 0))) (omega arith) serving
      (answers 16 (omega arith), (answers 16 (omega arith), tt)) refl
