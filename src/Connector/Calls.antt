-- ===== src/Connector/Calls.antt =====
-- cloudConnector_rpc_write of CloudConnector.c: the result for the sensor, and the packets other than
-- PUBLISH.
use demo_iot_app_hw.Base.{
  ℕ, ◌+◌, ◌-◌, ◌^◌, ◌<◌, ◌≤◌, ◌≡◌, ◌≢◌, refl, ◌∙◌, ap, none, List, ◌==◌, if◌then◌else◌, length,
  length-take, take, drop_all, ℤ, pos, negsuc, ◌==ℤ◌, is_positive, ok, fault, ◌>>=◌, arith, true,
  false, Bool-cases, inl, inr,
}
use mathlib.Core.List.{append-nil}
use demo_iot_app_hw.Base.Memory.{region-ok, blit, blit-ok}
use demo_iot_app_hw.Platform.{Timers, Paho, connect, publish, pingreq, subscribe}
use demo_iot_app_hw.Platform.Os.{os_success, OsErrors}
use demo_iot_app_hw.Platform.Camkes.{Semaphore, ManagedBuffer}
use demo_iot_app_hw.Net.{call_write, network_write, network_send_packet, read_header}
use demo_iot_app_hw.Server.{MqttServer, read_type, server_send_packet, send_conn_ack}
use demo_iot_app_hw.Connector.State.{CcFsm, paho_recv_buff_size}
use demo_iot_app_hw.Connector.Handlers.{
  is_unsupported, handle_connect, handle_pingreq, handle_subscribe, handle_unsupported_packet,
  dispatch, handle_new_message, cloud_connector_rpc_write,
}

-- The first 1024 bytes of the sensor's dataport.
abbrev pub message : {W : Type 0} → Semaphore W → W → List ℕ
message sem w = take paho_recv_buff_size (sem.sensor_port w)

-- The state with a message in the read buffer of the server.
abbrev pub with_input : {W T : Type 0} → CcFsm W T → List ℕ → CcFsm W T
with_input self bytes = record self { server = record self.server { readbuf = bytes } }

-- The read buffer has its declared size, and the dataport is no smaller.
abbrev pub HasInput : {W T : Type 0} → Semaphore W → CcFsm W T → W → Type 0
HasInput sem self w =
    (length self.server.readbuf ≡ paho_recv_buff_size)
    × (paho_recv_buff_size ≤ length (sem.sensor_port w))

pub is_positive-pos : (len : ℕ) → 0 < len → is_positive (pos len) ≡ true
is_positive-pos len h = ground arith

module _ {W T : Type 0} (ts : Timers W T) where
  server_send_packet-null :
      (self : MqttServer W) (len : ℕ) (w : W)
      → len ≤ length self.sendbuf
      → self.net.mqttwrite ≡ none
      → server_send_packet ts self len w ≡ fault
  unfolding server_send_packet network_send_packet network_write call_write
  server_send_packet-null self len w fits null =
      elim (Bool-cases (self.socket_timeout_ms == 2 ^ 32 - 1)) [
        | inl never ↦ rw (never, region-ok self.sendbuf 0 len (omega arith), null) refl
        | inr limited ↦ rw (limited, region-ok self.sendbuf 0 len (omega arith), null) refl
      ]

module _ {W T M : Type 0} (ts : Timers W T) (p : Paho) (mb : ManagedBuffer M)
    (sem : Semaphore W) where
  -- The call is the handler and then `sem_post`.
  handle_new_message_lem :
      (fuel : ℕ) (self : CcFsm W T) (w : W)
      → HasInput sem self w
      → handle_new_message ts p mb sem fuel self w ≡ (
          dispatch ts p mb fuel (with_input self (message sem w)) (read_header p (message sem w)) w
          >>= λ (ret, self', w1). ok ((sem.sem_post w1).0, self', (sem.sem_post w1).1))
  unfolding handle_new_message read_type
  handle_new_message_lem fuel self w (size, room) =
      let bytes = message sem w in
      let full : length bytes ≡ paho_recv_buff_size =
        length-take paho_recv_buff_size (sem.sensor_port w) ∙ omega arith in
      let store : blit self.server.readbuf 0 bytes ≡ ok bytes =
        blit-ok self.server.readbuf 0 bytes (omega arith)
        ∙ ap ok (
            rw (drop_all (0 + length bytes) self.server.readbuf (omega arith))
              (append-nil bytes)) in
      rw (region-ok (sem.sensor_port w) 0 paho_recv_buff_size (omega arith), store) refl

  -- What the sensor gets is the result of `sem_post`, and nothing else: the result of the handler
  -- that ran, `ret` here, is lost.
  pub rpc_write-dispatch :
      (er : OsErrors) (fuel : ℕ) (self self' : CcFsm W T) (ret : ℤ) (w w1 : W)
      → let w0 = (sem.sem_wait w).1 in
        HasInput sem self w0
        → dispatch ts p mb fuel
            (with_input self (message sem w0))
            (read_header p (message sem w0))
            w0
          ≡ ok (ret, self', w1)
        → cloud_connector_rpc_write ts p mb sem er fuel self w
          ≡ ok (
            if (sem.sem_post w1).0 ==ℤ os_success then os_success else er.generic,
            self',
            (sem.sem_post w1).1,
          )
  unfolding cloud_connector_rpc_write
  rpc_write-dispatch er fuel self self' ret w w1 input run =
      rw (handle_new_message_lem fuel self (sem.sem_wait w).1 input, run) refl

  -- The packets that are neither connections nor publications.
  dispatch-other :
      (fuel : ℕ) (self : CcFsm W T) (packet_type : ℕ) (w : W)
      → packet_type ≢ connect
      → packet_type ≢ publish
      → (ret : ℤ) × (dispatch ts p mb fuel self packet_type w ≡ ok (ret, self, w))
  unfolding dispatch handle_pingreq handle_subscribe handle_unsupported_packet
  dispatch-other fuel self packet_type w no_connect no_publish =
      let c : (packet_type == connect) ≡ false = ground arith in
      let d : (packet_type == publish) ≡ false = ground arith in
      elim (Bool-cases (packet_type == pingreq)) [
        | inl ping ↦ (pos 0, rw (c, ping) refl)
        | inr no_ping ↦ elim (Bool-cases (packet_type == subscribe)) [
          | inl sub ↦ (pos 0, rw (c, no_ping, d, sub) refl)
          | inr no_sub ↦ elim (Bool-cases (is_unsupported packet_type)) [
            | inl known ↦ (pos 0, rw (c, no_ping, d, no_sub, known) refl)
            | inr unknown ↦ (negsuc 0, rw (c, no_ping, d, no_sub, unknown) refl)
          ]
        ]
      ]

  -- A packet that is neither CONNECT nor PUBLISH, of a known type or not, changes nothing but the
  -- read buffer: nothing is sent, no counter and no session changes, and the sensor gets the result
  -- of `sem_post`, also for a type that the code calls invalid.
  pub rpc_write-ignored :
      (er : OsErrors) (fuel : ℕ) (self : CcFsm W T) (w : W)
      → let w0 = (sem.sem_wait w).1 in
        HasInput sem self w0
        → read_header p (message sem w0) ≢ connect
        → read_header p (message sem w0) ≢ publish
        → cloud_connector_rpc_write ts p mb sem er fuel self w
          ≡ ok (
            if (sem.sem_post w0).0 ==ℤ os_success then os_success else er.generic,
            with_input self (message sem w0),
            (sem.sem_post w0).1,
          )
  rpc_write-ignored er fuel self w input no_connect no_publish =
      let w0 = (sem.sem_wait w).1 in
      let self1 = with_input self (message sem w0) in
      let (ret, run) =
        dispatch-other fuel self1 (read_header p (message sem w0)) w0 no_connect no_publish in
      rpc_write-dispatch er fuel self self1 ret w w0 input run

  -- A CONNECT from the sensor, while the network object of the server holds a null pointer for
  -- `mqttwrite`: the answer is sent through that pointer.
  pub rpc_write-connect_faults :
      (er : OsErrors) (fuel len : ℕ) (self : CcFsm W T) (buf : List ℕ) (w : W)
      → let w0 = (sem.sem_wait w).1 in
        HasInput sem self w0
        → read_header p (message sem w0) ≡ connect
        → self.server.net.mqttwrite ≡ none
        → p.serialize_connack self.server.sendbuf self.server.sendbuf_size
            (record { rc = 0; session_present = 0 })
          ≡ (pos len, buf)
        → 0 < len
        → len ≤ length buf
        → cloud_connector_rpc_write ts p mb sem er fuel self w ≡ fault
  unfolding cloud_connector_rpc_write dispatch handle_connect send_conn_ack
  rpc_write-connect_faults er fuel len self buf w input kind null ser some_bytes fits =
      let w0 = (sem.sem_wait w).1 in
      let answer = record (with_input self (message sem w0)).server { sendbuf = buf } in
      let sent = server_send_packet-null ts answer len w0 fits null in
      rw
        (handle_new_message_lem fuel self w0 input, kind, ser, is_positive-pos len some_bytes, sent)
        refl
