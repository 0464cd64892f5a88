-- ===== src/Connector/Start.antt =====
-- CC_FSM_ctor and handle_CC_FSM_INIT of CloudConnector.c.
use demo_iot_app_hw.Base.{
  ℕ, ◌^◌, ◌<◌, ◌≡◌, refl, none, some, false, Bool-cases, inl, inr, length, length-replicate, pos,
  ◌==ℤ◌, arith,
}
use demo_iot_app_hw.Platform.{Timers, Paho}
use demo_iot_app_hw.Platform.Os.{os_success, OsErrors, ConfigService}
use demo_iot_app_hw.Platform.Tls.{TlsStack}
use demo_iot_app_hw.Platform.Camkes.{Semaphore}
use demo_iot_app_hw.Client.State
use demo_iot_app_hw.Server.{server_init}
use demo_iot_app_hw.Connector.State.{CcFsm, paho_recv_buff_size}
use demo_iot_app_hw.Connector.Setup.{Names, constructed, ctor}

-- What the first call finds: no session, no keep-alive, packet ids from 1 on, buffers of the sizes
-- given with them, and a server that cannot write.
pub record IsInitial {W T : Type 0} (self : CcFsm W T) : Type 0 where
  pub closed : self.client.is_connected ≡ false
  pub no_keep_alive : self.client.keep_alive_interval_ms ≡ 0
  pub next_packet_id : self.client.next_packet_id ≡ 1
  pub client_readbuf : length self.client.readbuf ≡ self.client.readbuf_size
  pub client_sendbuf : length self.client.sendbuf ≡ self.client.sendbuf_size
  pub client_limit : self.client.readbuf_size < 2 ^ 32
  pub server_readbuf : length self.server.readbuf ≡ self.server.readbuf_size
  pub server_sendbuf : length self.server.sendbuf ≡ self.server.sendbuf_size
  pub server_mqttwrite : self.server.net.mqttwrite ≡ none
  pub buffer : length self.buffer ≡ paho_recv_buff_size

module _ {W T H E D Q : Type 0} (er : OsErrors) (cs : ConfigService W H E D Q) (names : Names)
    (tls : TlsStack W) (ts : Timers W T) (p : Paho) (sem : Semaphore W) where
  constructed-IsInitial :
      (fuel : ℕ) (w : W) → IsInitial (constructed er cs names tls ts p sem fuel w).0
  unfolding constructed server_init State.init
  constructed-IsInitial fuel w = record {
    closed = refl;
    no_keep_alive = refl;
    next_packet_id = refl;
    client_readbuf = length-replicate {A = ℕ} 1024 0;
    client_sendbuf = length-replicate {A = ℕ} 1024 0;
    client_limit = omega arith;
    server_readbuf = length-replicate {A = ℕ} 1024 0;
    server_sendbuf = length-replicate {A = ℕ} 1024 0;
    server_mqttwrite = refl;
    buffer = length-replicate {A = ℕ} 1024 0;
  }

  -- Where CC_FSM_ctor returns 0, the state that it leaves is the initial one; the network object
  -- towards the sensor has a null pointer for `mqttwrite`.
  pub ctor-IsInitial :
      (fuel : ℕ) (handle : H) (self : CcFsm W T) (w w' : W)
      → ctor er cs names tls ts p sem fuel w ≡ (pos 0, some (handle, self), w')
      → IsInitial self
  unfolding ctor
  ctor-IsInitial fuel handle self w w' e =
      let (err, h, w1) = cs.create_handle_remote w in
      let same : (constructed er cs names tls ts p sem fuel w1).0 ≡ self =
        elim (Bool-cases (err ==ℤ os_success)) [
          | inl good ↦ let e' = rw good at e in cc
          | inr bad ↦ let e' = rw bad at e in cc
        ] in
      rw (← same) (constructed-IsInitial fuel w1)
