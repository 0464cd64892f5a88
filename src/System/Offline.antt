-- ===== src/System/Offline.antt =====
-- The Sensor and the CloudConnector once the session with the cloud is closed.
use demo_iot_app_hw.Base.{
  ℕ, zero, suc, ◌+◌, ◌≤◌, ◌<◌, ◌≡◌, refl, ◌∙◌, List, [], ◌∷◌, ◌++◌, false, length, length-take,
  take, drop, ℤ, pos, ok, arith,
}
use mathlib.Core.List.{append_assoc, append-nil}
use demo_iot_app_hw.Config.Names.{IsCString}
use demo_iot_app_hw.Platform.{Timers, Paho, PublishStore}
use demo_iot_app_hw.Platform.Packets.{store_qos}
use demo_iot_app_hw.Platform.Os.{OsErrors}
use demo_iot_app_hw.Platform.Camkes.{Semaphore, ManagedBuffer, IsManaged}
use demo_iot_app_hw.Platform.Sensing.{Device}
use demo_iot_app_hw.Client.State.{close_session}
use demo_iot_app_hw.Client.Send.{with_sendbuf}
use demo_iot_app_hw.Client.Link.{Connection}
use demo_iot_app_hw.Connector.State.{CcFsm, paho_recv_buff_size}
use demo_iot_app_hw.Connector.Handlers.{cloud_connector_rpc_write}
use demo_iot_app_hw.Connector.Calls.{message}
use demo_iot_app_hw.Connector.Forward.{taken, rpc_write-offline}
use demo_iot_app_hw.Sensor.{send_rounds}
use demo_iot_app_hw.Sensor.Values.{sensor_publish}
use demo_iot_app_hw.Sensor.Configured.{IsReadBack}
use demo_iot_app_hw.System.{connected}
use demo_iot_app_hw.System.Replies.{length-packed}
use demo_iot_app_hw.System.Call.{IsJoined, carries, send_rounds-round}

-- Paho writes the DISCONNECT packet to the front of a buffer of `size` bytes, whatever was there before.
pub record IsDisconnect (p : Paho) (size : ℕ) (packet : List ℕ) : Type 0 where
  pub serialize :
      (buf : List ℕ)
      → length buf ≡ size
      → (out : List ℕ) × (p.serialize_disconnect buf size ≡ (pos (length packet), out))
        × (length out ≡ size)
        × (take (length packet) out ≡ packet)
  pub some_bytes : 0 < length packet
  pub fits : length packet ≤ size

-- The session is closed; the arrays are as the next message needs them.
pub record IsOffline {W T : Type 0} (self : CcFsm W T) (needed : ℕ) : Type 0 where
  pub closed : self.client.is_connected ≡ false
  pub sendbuf : length self.client.sendbuf ≡ self.client.sendbuf_size
  pub input : length self.server.readbuf ≡ paho_recv_buff_size
  pub room : needed ≤ length self.buffer

abbrev pub copies : ℕ → List ℕ → List ℕ
copies zero packet = []
copies (suc n) packet = packet ++ copies n packet

-- The state when a message has been lost, with a DISCONNECT packet in the send buffer `buf`.
abbrev pub dropped :
    {W T : Type 0} → CcFsm W T → List ℕ → List PublishStore → List ℕ → List ℕ → CcFsm W T
dropped self bytes list topic buf = record (taken self bytes list topic) {
  client = close_session (with_sendbuf self.client buf);
}

module _ {W T M : Type 0} (ts : Timers W T) (p : Paho) (mb : ManagedBuffer M) (law : IsManaged mb)
    (sem : Semaphore W) (er : OsErrors) (device : Device W) (about said : List ℕ)
    (before after : List PublishStore)
    (back : IsReadBack p (sensor_publish about said) before after) (text : IsCString about) where
  -- A call with the sensor's packet in the dataport writes a DISCONNECT packet and leaves the session
  -- closed.
  rpc_write-dropped :
      (packet : List ℕ) (fuel : ℕ) (self : CcFsm W T) (l : Connection ts self.client) (w : W)
      (serialized_msg out old : List ℕ) (len : ℕ)
      → IsJoined device sem l.source.pending l.source.written
      → IsDisconnect p self.client.sendbuf_size packet
      → p.serialize_publish serialized_msg 320 (sensor_publish about said) ≡ (pos len, out)
      → len ≤ 1024
      → sem.sensor_port w ≡ take len out ++ old
      → IsOffline self (length about + (1 + length said))
      → let bytes = message sem (sem.sem_wait w).1 in
        let list = before ++ (store_qos 1 ∷ after) in
        (rc : ℤ) × (buf : List ℕ) × (w' : W) × (cloud_connector_rpc_write ts p mb sem er fuel self w
          ≡ ok (rc, dropped self bytes list about buf, w'))
        × (l.source.pending w' ≡ l.source.pending w)
        × (l.source.written w' ≡ l.source.written w ++ packet)
        × IsOffline (dropped self bytes list about buf) (length about + (1 + length said))
  unfolding close_session
  rpc_write-dropped packet fuel self l w serialized_msg out old len joined writes ser short held
        offline =
      let w0 = (sem.sem_wait w).1 in
      let bytes = message sem w0 in
      let list = before ++ (store_qos 1 ∷ after) in
      let last = taken self bytes list about in
      let (kept, log) = joined.sem_wait w in
      let c =
        carries ts p mb law sem er device about said before after back text self w0 serialized_msg
          out old len ser short (joined.port-sem_wait w ∙ held) (joined.port_long w0) offline.input
          offline.room in
      let (buf, written, size, front) = writes.serialize self.client.sendbuf offline.sendbuf in
      let (w', run, still, log') =
        rpc_write-offline ts p mb law sem er fuel self w l before 1 after about (length packet) buf
          c offline.closed written writes.some_bytes (omega (arith, size, writes.fits))
          writes.fits in
      let (kept', log'') = joined.sem_post w' in
      let full : length bytes ≡ 1024 =
        length-take 1024 (sem.sensor_port w0) ∙ omega (arith, joined.port_long w0) in
      let fits : length about + (1 + length last.msg.payload) ≤ length self.buffer =
        rw (back.payload self.msg) offline.room in
      (
        _,
        buf,
        (sem.sem_post w').1,
        run,
        kept' ∙ still ∙ kept,
        log'' ∙ log' ∙ rw (log, front) refl,
        record {
          closed = refl;
          sendbuf = size;
          input = full;
          room = omega (arith, offline.room, length-packed about last.msg.payload self.buffer fits);
        },
      )

  -- Once the session with the cloud is closed, the sensor does not notice: however many rounds it makes,
  -- it is still sending, the session stays closed, nothing is read, and all that is written is a
  -- DISCONNECT packet for each round. So each message is lost, over a connection that works. Paho reads
  -- back and writes what it should, and the message fits into the dataport and the buffer.
  pub send_rounds-offline :
      (packet : List ℕ) (fuel : ℕ) (serialized_msg out : List ℕ) (len n : ℕ) (self : CcFsm W T)
      (l : Connection ts self.client) (w : W)
      → IsJoined device sem l.source.pending l.source.written
      → IsDisconnect p self.client.sendbuf_size packet
      → p.serialize_publish serialized_msg 320 (sensor_publish about said) ≡ (pos len, out)
      → len ≤ 1024
      → len ≤ length out
      → len ≤ device.port_size
      → IsOffline self (length about + (1 + length said))
      → (self' : CcFsm W T) × (w' : W) × (send_rounds
            (connected ts p mb sem er device fuel)
            n
            out
            (pos len)
            (self, w)
          ≡ ok (self', w'))
        × (self'.client.is_connected ≡ false)
        × (l.source.pending w' ≡ l.source.pending w)
        × (l.source.written w' ≡ l.source.written w ++ copies n packet)
  unfolding send_rounds close_session
  send_rounds-offline packet fuel serialized_msg out len zero self l w joined writes ser short fits
        room offline =
      (self, w, refl, offline.closed, refl, rw append-nil refl)
  send_rounds-offline packet fuel serialized_msg out len (suc n) self l w joined writes ser short
        fits room offline =
      let bytes = take len out in
      let same : length bytes ≡ len = length-take len out ∙ omega arith in
      let w1 = device.put bytes w in
      let (kept, log) = joined.put bytes w in
      let held = joined.port-put bytes w (omega arith) in
      let (rc, buf, w2, run, kept', log', offline') =
        rpc_write-dropped packet fuel self l w1 serialized_msg out
          (drop (length bytes) (sem.sensor_port w)) len joined writes ser short held offline in
      let self' =
        dropped self (message sem (sem.sem_wait w1).1) (before ++ (store_qos 1 ∷ after)) about
          buf in
      let (kept3, log3) = joined.notify_wait w2 in
      let (self4, w4, run4, closed, kept4, log4) =
        send_rounds-offline packet fuel serialized_msg out len n self' l (device.notify_wait w2)
          joined writes ser short fits room offline' in
      (
        self4,
        w4,
        send_rounds-round ts p mb sem er device fuel n self w out len rc self' w2 fits room run
            ∙ run4,
        closed,
        kept4 ∙ kept3 ∙ kept' ∙ kept,
        log4
            ∙ rw (log3, log', log, append_assoc (l.source.written w) packet (copies n packet)) refl,
      )
