-- ===== src/Examples/Connector.antt =====
-- Runs of the theorems on components/CloudConnector/src/CloudConnector.c.
use demo_iot_app_hw.Base.{
  ℕ, ◌+◌, ◌-◌, ◌/◌, ◌≡◌, refl, none, List, [], ◌∷◌, ◌++◌, length, length-append, length-replicate,
  length-take, length-drop, replicate, take, drop, ok, fault, arith,
}
use demo_iot_app_hw.Base.Memory.{overwrite}
use demo_iot_app_hw.Platform.{Network}
use demo_iot_app_hw.Platform.Os.{os_success}
use demo_iot_app_hw.Platform.Camkes.{Semaphore, ManagedBuffer, IsManaged}
use demo_iot_app_hw.Net.{read_header}
use demo_iot_app_hw.Connector.State.{CcFsm}
use demo_iot_app_hw.Connector.Handlers.{cloud_connector_rpc_write}
use demo_iot_app_hw.Connector.Calls.{
  HasInput, message, with_input, rpc_write-ignored, rpc_write-connect_faults,
}
use demo_iot_app_hw.Connector.History.{Calls, no_call, one_more, Lasts, Calls-Lasts}
use demo_iot_app_hw.Examples.Fixture.{World, world, timers, paho, os_errors}
use demo_iot_app_hw.Examples.Client.{ready_client}

abbrev pub semaphore : Semaphore World
semaphore = record {
  sem_wait = λ w. (os_success, w);
  sem_post = λ w. (os_success, w);
  sensor_port = λ w. w.port;
}

-- The array, and how much of it is used.
pub record Filled : Type 0 where
  array : List ℕ
  used : ℕ

abbrev pub managed : ManagedBuffer Filled
managed = record {
  init = λ buf. record { array = buf; used = 0 };
  bytes = λ m. m.array;
  free_space = λ m. length m.array - m.used;
  free_space_ptr = λ m. m.used;
  append = λ xs m. record { array = overwrite m.array m.used xs; used = m.used + length xs };
}

pub managed-IsManaged : IsManaged managed
managed-IsManaged = record {
  bytes-init = λ buf. refl;
  free_space-init = λ buf. omega arith;
  free_space_ptr-init = λ buf. refl;
  bytes-append = λ xs m h. refl;
  free_space-append = λ xs m h. omega (
    arith,
    length-append (take m.used m.array) (xs ++ drop (m.used + length xs) m.array),
    length-append xs (drop (m.used + length xs) m.array),
    length-take m.used m.array,
    length-drop (m.used + length xs) m.array,
  );
  free_space_ptr-append = λ xs m h. refl;
}

abbrev pub server_network : Network World
server_network = record { mqttread = none; mqttwrite = none }

abbrev pub connector : CcFsm World ℕ
connector = record {
  client = ready_client;
  server = record {
    sendbuf = replicate 16 0;
    sendbuf_size = 16;
    readbuf = replicate 1024 0;
    readbuf_size = 1024;
    net = server_network;
    socket_timeout_ms = 300000;
  };
  msg = record { qos = 0; retained = 0; dup = 0; id = 0; payload = [] };
  sz_topic = 0;
  buffer = replicate 16 0;
  cnt_connect = 0;
  cnt_publish = 0;
}

-- A dataport that begins with the bytes.
abbrev pub holding : List ℕ → List ℕ → World
holding stream bytes = world stream (bytes ++ replicate 1024 0)

pub long_port : (stream bytes : List ℕ) → HasInput semaphore connector (holding stream bytes)
long_port stream bytes = (
  length-replicate {A = ℕ} 1024 0,
  omega (arith, length-append bytes (replicate 1024 0), length-replicate {A = ℕ} 1024 0),
)

pub header_of :
    (stream : List ℕ) (b : ℕ) (bytes : List ℕ)
    → read_header paho (message semaphore (holding stream (b ∷ bytes))) ≡ b / 16
unfolding read_header
header_of stream b bytes = refl

-- A PINGREQ.
rpc_write-ignored_example :
    cloud_connector_rpc_write timers paho managed semaphore os_errors 0 connector
      (holding [] (192 ∷ 0 ∷ []))
    ≡ ok (
      os_success,
      with_input connector (message semaphore (holding [] (192 ∷ 0 ∷ []))),
      holding [] (192 ∷ 0 ∷ []),
    )
rpc_write-ignored_example =
    rpc_write-ignored timers paho managed semaphore os_errors 0 connector
      (holding [] (192 ∷ 0 ∷ [])) (long_port [] (192 ∷ 0 ∷ []))
      (λ e. omega (arith, header_of [] 192 (0 ∷ [])))
      (λ e. omega (arith, header_of [] 192 (0 ∷ [])))

abbrev after_ping : CcFsm World ℕ
after_ping = with_input connector (message semaphore (holding [] (192 ∷ 0 ∷ [])))

ping_call :
    cloud_connector_rpc_write timers paho managed semaphore os_errors 0 connector
      (holding [] (192 ∷ 0 ∷ []))
    ≡ ok (os_success, after_ping, holding [] (192 ∷ 0 ∷ []))
ping_call =
    rpc_write-ignored timers paho managed semaphore os_errors 0 connector
      (holding [] (192 ∷ 0 ∷ [])) (long_port [] (192 ∷ 0 ∷ []))
      (λ e. omega (arith, header_of [] 192 (0 ∷ [])))
      (λ e. omega (arith, header_of [] 192 (0 ∷ [])))

one_ping : Calls timers paho managed semaphore os_errors connector after_ping
one_ping =
    one_more connector 0 (holding [] (192 ∷ 0 ∷ [])) (holding [] (192 ∷ 0 ∷ [])) os_success no_call
      ping_call

Calls-Lasts_example : Lasts connector after_ping
Calls-Lasts_example = Calls-Lasts timers paho managed semaphore os_errors one_ping

-- The first CONNECT of a sensor.
rpc_write-connect_faults_example :
    cloud_connector_rpc_write timers paho managed semaphore os_errors 0 connector
      (holding [] (16 ∷ 12 ∷ []))
    ≡ fault
rpc_write-connect_faults_example =
    rpc_write-connect_faults timers paho managed semaphore os_errors 0 4 connector
      (32 ∷ 2 ∷ 0 ∷ 0 ∷ replicate 12 0) (holding [] (16 ∷ 12 ∷ [])) (long_port [] (16 ∷ 12 ∷ []))
      (header_of [] 16 (12 ∷ [])) refl refl (omega arith) (omega arith)
