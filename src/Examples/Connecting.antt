-- ===== src/Examples/Connecting.antt =====
-- A run of the theorem on connectSocket of glue_tls_mqtt.c.
use demo_iot_app_hw.Base.{
  ℕ, suc, ◌≡◌, ◌≢◌, ◌⊎◌, refl, List, [], ◌∷◌, drop, if◌then◌else◌, ◌==◌, ℤ, pos, ok, arith,
}
use demo_iot_app_hw.Platform.Os.{os_success}
use demo_iot_app_hw.Platform.Tls.{TlsStack, running}
use demo_iot_app_hw.Tls.Socket.{connect_socket}
use demo_iot_app_hw.Tls.Connecting.{IsTracked, decision, after_round, connect_socket-opened}
use demo_iot_app_hw.Examples.Fixture.{os_errors}

-- The rounds so far, and the open sockets.
record Sockets : Type 0 where
  rounds : ℕ
  handles : List ℕ

-- The first round has no event; the second one says that the peer closes the connection.
abbrev stack : TlsStack Sockets
stack = record {
  get_time_msec = λ w. (os_success, 1, w);
  yield_slice = λ w. w;
  crypto_init = λ w. (os_success, w);
  tls_init = λ cert w. (os_success, w);
  tls_handshake = λ w. (os_success, w);
  tls_write = λ bytes w. (os_success, 0, w);
  tls_read = λ n w. (os_success, [], w);
  addr_size = 4;
  event_bits = record { fin = 1; conn_est = 2; close = 4; error = 8 };
  socket_get_status = λ w. (running, w);
  socket_create = λ w. (os_success, 7, record w { handles = 7 ∷ w.handles });
  socket_connect = λ handle addr port w. (os_success, w);
  socket_wait = λ w. (os_success, w);
  get_pending_events = λ n w. (
    os_success,
    pos (if w.rounds == 0 then 0 else 1),
    record { socket_handle = 7; event_mask = 4; current_error = pos 0 },
    record w { rounds = suc w.rounds },
  );
  socket_close = λ handle w. record w { handles = drop 1 w.handles };
}

abbrev tracked : IsTracked stack
tracked = record {
  opened = λ w. w.handles;
  creates = λ w good. refl;
  creates_not = λ w bad. absurd (bad refl);
  connect = λ h addr port w. refl;
  wait = λ w. refl;
  events = λ n w. refl;
  close = λ h others w e. rw e refl;
}

abbrev before : Sockets
before = record { rounds = 0; handles = 3 ∷ [] }

connect_socket-opened_example :
    (rc : ℤ) × (w' : Sockets) × (connect_socket os_errors stack 5 (1 ∷ []) 8883 before
      ≡ ok (rc, w'))
    × (((rc ≡ os_success) × (tracked.opened w' ≡ 7 ∷ 3 ∷ []))
        ⊎ ((rc ≢ os_success) × (tracked.opened w' ≡ 3 ∷ [])))
unfolding decision after_round
connect_socket-opened_example =
    connect_socket-opened os_errors stack tracked 1 5 (1 ∷ []) 8883 before
      os_errors.connection_closed (record { rounds = 2; handles = 7 ∷ 3 ∷ [] }) (omega arith)
      (refl, (refl, refl))
