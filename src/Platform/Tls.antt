-- ===== src/Platform/Tls.antt =====
-- The time server, the TLS library, the crypto library and the network stack, as glue_tls_mqtt.c
-- calls them. The TLS context, the crypto handle and the thread's time slice are part of `W`.
use demo_iot_app_hw.Base.{ℕ, List, ℤ}

-- `OS_NetworkStack_State_t`, as far as the code tells its values apart.
pub data StackState : Type 0 where
  running fatal_error other : StackState

-- `OS_Socket_Evt_t`
pub record SocketEvent : Type 0 where
  pub socket_handle : ℕ
  pub event_mask : ℕ
  pub current_error : ℤ

-- The bits of an event mask that the code tests.
pub record EventBits : Type 0 where
  pub fin : ℕ
  pub conn_est : ℕ
  pub close : ℕ
  pub error : ℕ

-- `tls_write` returns the code and how many of the bytes it took; `tls_read` gets the number of
-- bytes wanted and returns those that it read. `get_pending_events` returns the code, the number of
-- events and the first of them.
pub record TlsStack (W : Type 0) : Type 0 where
  pub get_time_msec : W → ℤ × ℕ × W
  pub yield_slice : W → W
  pub crypto_init : W → ℤ × W
  pub tls_init : List ℕ → W → ℤ × W
  pub tls_handshake : W → ℤ × W
  pub tls_write : List ℕ → W → ℤ × ℕ × W
  pub tls_read : ℕ → W → ℤ × List ℕ × W
  pub addr_size : ℕ
  pub event_bits : EventBits
  pub socket_get_status : W → StackState × W
  pub socket_create : W → ℤ × ℕ × W
  pub socket_connect : ℕ → List ℕ → ℕ → W → ℤ × W
  pub socket_wait : W → ℤ × W
  pub get_pending_events : ℕ → W → ℤ × ℤ × SocketEvent × W
  pub socket_close : ℕ → W → W
