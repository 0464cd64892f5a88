-- ===== src/Examples/Start.antt =====
-- Runs of the theorems on the start of the CloudConnector.
use demo_iot_app_hw.Base.{
  ℕ, ◌≡◌, refl, inl, inr, some, List, [], ◌∷◌, replicate, length-replicate, pos, negsuc, ok, arith,
}
use demo_iot_app_hw.Platform.Os.{os_success}
use demo_iot_app_hw.Platform.Tls.{TlsStack, running}
use demo_iot_app_hw.Config.Names.{initialize_name, compare_domain_name}
use demo_iot_app_hw.Config.Setting.{setting}
use demo_iot_app_hw.Tls.Opening.{IsOpening, Shakes}
use demo_iot_app_hw.Connector.State.{CcFsm}
use demo_iot_app_hw.Connector.Setup.{Names, Settings, constructed, ctor, handle_init}
use demo_iot_app_hw.Connector.Account.{IsSized}
use demo_iot_app_hw.Connector.Options.{Found, with_found, found, Start, handle_init-found}
use demo_iot_app_hw.Connector.Start.{IsInitial, ctor-IsInitial}
use demo_iot_app_hw.Connector.Refused.{handle_init-handshake_fails}
use demo_iot_app_hw.Examples.Fixture.{World, world, timers, paho, os_errors, are_errors}
use demo_iot_app_hw.Examples.Config.{service, contents, service_keeps}
use demo_iot_app_hw.Examples.Connector.{semaphore, connector}

-- A TLS library with a handshake that fails with the code -6.
abbrev tls : TlsStack World
tls = record {
  get_time_msec = λ w. (os_success, 1, w);
  yield_slice = λ w. w;
  crypto_init = λ w. (os_success, w);
  tls_init = λ cert w. (os_success, w);
  tls_handshake = λ w. (negsuc 5, w);
  tls_write = λ bytes w. (os_errors.generic, 0, w);
  tls_read = λ n w. (os_errors.generic, [], w);
  addr_size = 4;
  event_bits = record { fin = 1; conn_est = 2; close = 4; error = 8 };
  socket_get_status = λ w. (running, w);
  socket_create = λ w. (os_success, 0, w);
  socket_connect = λ handle addr port w. (os_success, w);
  socket_wait = λ w. (os_success, w);
  get_pending_events = λ n w.
      (os_success, pos 1, record { socket_handle = 0; event_mask = 2; current_error = pos 0 }, w);
  socket_close = λ handle w. w;
}

abbrev pub names : Names
names = record {
  domain_cloudconnector = 98 ∷ [];
  cloud_device_id_name = 1 ∷ [];
  cloud_domain_name = 2 ∷ [];
  server_address_name = 3 ∷ [];
  cloud_sas_name = 4 ∷ [];
  server_port_name = 5 ∷ [];
  server_ca_cert_name = 6 ∷ [];
  famous_last_words = 7 ∷ [];
  will_topic = 8 ∷ [];
}

abbrev first_state : CcFsm World ℕ
first_state = (constructed os_errors service names tls timers paho semaphore 9 (world [] [])).0

ctor-run :
    ctor os_errors service names tls timers paho semaphore 9 (world [] [])
    ≡ (pos 0, some (0, first_state), world [] [])
unfolding ctor constructed demo_iot_app_hw.Client.State.init
ctor-run = refl

ctor-IsInitial_example : IsInitial first_state
ctor-IsInitial_example =
    ctor-IsInitial os_errors service names tls timers paho semaphore 9 0 first_state (world [] [])
      (world [] []) ctor-run

-- Arrays of the declared sizes.
abbrev pub arrays : Settings
arrays = record {
  cloud_device_name = replicate 128 0;
  cloud_username = replicate 128 0;
  cloud_sas = replicate 192 0;
  server_ip = replicate 32 0;
  server_cert = replicate 4096 0;
}

pub arrays-IsSized : IsSized arrays
arrays-IsSized = record {
  device_name = length-replicate {A = ℕ} 128 0;
  username = length-replicate {A = ℕ} 128 0;
  sas = length-replicate {A = ℕ} 192 0;
  ip = length-replicate {A = ℕ} 32 0;
  cert = length-replicate {A = ℕ} 4096 0;
}

handle_init-found_example :
    Start os_errors service 0 contents
      (λ w. w.log)
      (service_keeps (λ w. w.log))
      names
      tls
      timers
      paho
      semaphore
      (found os_errors (service {W = World}) 0 contents names)
      (handle_init os_errors service names tls timers paho semaphore 3 0 connector arrays
        (world [] []))
      3
      connector
      arrays
      (world [] [])
handle_init-found_example =
    handle_init-found os_errors service 0 contents (λ w. w.log) (service_keeps (λ w. w.log)) names
      tls timers paho semaphore 3 connector arrays (world [] []) are_errors (omega arith)
      arrays-IsSized

-- Each parameter of the domain 98 ("b") has this value.
abbrev pub value : List ℕ
value = 98 ∷ 0 ∷ 0 ∷ 0 ∷ []

abbrev pub values : Found
values = record {
  ip = value;
  port = value;
  cert = value;
  account = record { username = value; sas = value; device = value };
}

abbrev connection : World → List ℕ × List ℕ
connection w = (w.stream, w.log)

opening : IsOpening tls connection 0 1
opening = record {
  crypto = λ w. (refl, refl);
  library = λ cert w. (refl, refl);
  starting = λ w. 0;
  starting_few = λ w. omega arith;
  status = λ w. inl (refl, refl);
  create = λ w. (refl, refl, refl);
  connect = λ addr port w. (refl, refl);
  waiting = λ w. 0;
  waiting_few = λ w. omega arith;
  event = λ w. (refl, refl, refl, inr (refl, refl, refl, λ e. omega arith));
}

shakes : Shakes tls connection (negsuc 5)
shakes = record { answer = λ w. (refl, refl) }

handle_init-handshake_fails_example :
    (w' : World) × (handle_init os_errors service names tls timers paho semaphore 3 0 connector
        arrays
        (world (1 ∷ []) [])
      ≡ ok (pos 1, connector, with_found arrays values, w'))
    × (connection w' ≡ (1 ∷ [], []))
unfolding setting initialize_name compare_domain_name
handle_init-handshake_fails_example =
    handle_init-handshake_fails os_errors service 0 contents connection (service_keeps connection)
      names tls timers paho semaphore values 98 0 1 3 (negsuc 5) connector arrays
      (world (1 ∷ []) []) are_errors (omega arith) arrays-IsSized refl refl opening (omega arith)
      shakes (λ e. ground arith)
