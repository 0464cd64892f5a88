-- ===== src/Connector/Established.antt =====
-- The connection to the cloud in handle_CC_FSM_INIT of CloudConnector.c, where all of it works.
use demo_iot_app_hw.Base.{
  ℕ, ◌^◌, ◌≤◌, ◌<◌, ◌≡◌, refl, ◌∙◌, ap, false, List, ◌++◌, length, take, pos, ok, arith,
}
use demo_iot_app_hw.Config.Names.{c_string}
use demo_iot_app_hw.Platform.{Timers, Paho, ConnectData, ConnackData, connack}
use demo_iot_app_hw.Platform.Os.{os_success, OsErrors, ConfigService}
use demo_iot_app_hw.Platform.Tls.{TlsStack}
use demo_iot_app_hw.Platform.Camkes.{Semaphore}
use demo_iot_app_hw.Client.Link.{Connection}
use demo_iot_app_hw.Client.Publishing.{Awaits}
use demo_iot_app_hw.Client.Waiting.{Frame, frame_bytes, frames_bytes}
use demo_iot_app_hw.Client.Connecting.{connect-established}
use demo_iot_app_hw.Client.Session.{established}
use demo_iot_app_hw.Tls.Socket
use demo_iot_app_hw.Tls.Opening.{IsOpening, Shakes, tls_init-opens}
use demo_iot_app_hw.Connector.State.{CcFsm}
use demo_iot_app_hw.Connector.Setup.{Names, Settings, do_tls_handshake, do_mqtt_connect, establish}

-- The packets up to a CONNACK, and what Paho reads from that.
pub record Greeting : Type 0 where
  pub skipped : List Frame
  pub ack : Frame
  pub read : ConnackData

-- They fit into a read buffer of `size` bytes and within the fuel, and Paho reads the CONNACK.
pub record Greets (p : Paho) (fuel size : ℕ) (g : Greeting) : Type 0 where
  pub few : length g.skipped < fuel
  pub awaits : Awaits p size connack g.skipped g.ack
  pub reads :
      (old : List ℕ) → p.deserialize_connack (frame_bytes g.ack ++ old) size ≡ (pos 1, g.read)

-- Paho writes the CONNECT packet to the front of the buffer.
pub record IsConnect (p : Paho) (size : ℕ) (options : ConnectData) (old packet : List ℕ)
    : Type 0 where
  pub out : List ℕ
  pub serialize : p.serialize_connect old size options ≡ (pos (length packet), out)
  pub some_bytes : 0 < length packet
  pub fits : length packet ≤ size
  pub full : length out ≡ size
  pub front : take (length packet) out ≡ packet

-- `sem_post` succeeds, and does not change what `view` shows.
pub record Posts {W V : Type 0} (sem : Semaphore W) (view : W → V) : Type 0 where
  pub good : (w : W) → (sem.sem_post w).0 ≡ os_success
  pub kept : (w : W) → view (sem.sem_post w).1 ≡ view w

-- What has yet to be read, and what has been written.
abbrev pub both_ways : {W : Type 0} → (W → List ℕ) → (W → List ℕ) → W → List ℕ × List ℕ
both_ways pending written w = (pending w, written w)

module _ {W T H E D Q : Type 0} (er : OsErrors) (cs : ConfigService W H E D Q) (names : Names)
    (tls : TlsStack W) (ts : Timers W T) (p : Paho) (sem : Semaphore W) where
  -- The connector with a connected client.
  abbrev pub with_session : CcFsm W T → ConnectData → List ℕ → Greeting → W → CcFsm W T
  with_session self options buf g w = record self {
    client = established ts p self.client options buf g.skipped g.ack w;
  }

  -- The session and the connection are set up, and the semaphore is posted.
  pub establish-connected :
      (fuel : ℕ) (self : CcFsm W T) (l : Connection ts self.client) (handle rounds : ℕ)
      (st : Settings) (server_port : ℕ) (options : ConnectData) (g : Greeting)
      (packet rest : List ℕ) (w : W)
      → let view = both_ways l.source.pending l.source.written in
        IsOpening tls view handle rounds
        → Shakes tls view os_success
        → Posts sem view
        → rounds ≤ fuel
        → self.client.is_connected ≡ false
        → options.keep_alive_interval ≡ 0
        → length self.client.readbuf ≡ self.client.readbuf_size
        → self.client.readbuf_size < 2 ^ 32
        → (c : IsConnect p self.client.sendbuf_size options self.client.sendbuf packet)
        → Greets p fuel self.client.readbuf_size g
        → l.source.pending w ≡ frames_bytes g.skipped ++ (frame_bytes g.ack ++ rest)
        → (w1 : W) × (w' : W) × (establish er cs names tls ts p sem fuel self st server_port options
              w
            ≡ ok (os_success, with_session self options c.out g w1, w'))
          × (l.source.pending w' ≡ rest)
          × (l.source.written w' ≡ l.source.written w ++ packet)
  unfolding establish do_tls_handshake do_mqtt_connect Socket.tls_handshake
  establish-connected fuel self l handle rounds st server_port options g packet rest w opening
        shakes posts enough down off size limit c greets e =
      let view = both_ways l.source.pending l.source.written in
      let (w1, run, kept) =
        tls_init-opens er tls view opening fuel (c_string st.server_ip) st.server_cert server_port w
          enough in
      let (good, kept') = shakes.answer w1 in
      let w2 = (tls.tls_handshake w1).1 in
      let same : view w2 ≡ view w = kept' ∙ kept in
      let (w3, run', left, log) =
        connect-established ts p fuel self.client l options g.skipped g.ack rest g.read
          (length packet) c.out w2 greets.few down off size limit c.serialize c.some_bytes
          (omega (arith, c.full, c.fits)) c.fits greets.awaits (ap (λ v. v.0) same ∙ e)
          (greets.reads _) in
      let posted = posts.good w3 in
      let still = posts.kept w3 in
      (
        w2,
        (sem.sem_post w3).1,
        rw (run, good, run', posted) refl,
        ap (λ v. v.0) still ∙ left,
        ap (λ v. v.1) still ∙ log ∙ rw (c.front, ap (λ v. v.1) same) refl,
      )
