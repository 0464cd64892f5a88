-- ===== src/System/Call.antt =====
-- One remote call of the sensor, with the CloudConnector behind it.
use demo_iot_app_hw.Base.{
  ℕ, suc, leb, true, ◌+◌, ◌≤◌, ◌≡◌, refl, ◌∙◌, List, ◌∷◌, ◌++◌, length, length-take, take, drop, ℤ,
  pos, ok, arith,
}
use demo_iot_app_hw.Config.Names.{IsCString}
use demo_iot_app_hw.Platform.{Timers, Paho, PublishStore}
use demo_iot_app_hw.Platform.Packets.{store_qos}
use demo_iot_app_hw.Platform.Os.{OsErrors}
use demo_iot_app_hw.Platform.Camkes.{Semaphore, ManagedBuffer, IsManaged}
use demo_iot_app_hw.Platform.Sensing.{Device}
use demo_iot_app_hw.Client.Ids.{nth_id}
use demo_iot_app_hw.Client.Link.{Connection}
use demo_iot_app_hw.Client.Publishing.{packet_of}
use demo_iot_app_hw.Client.Waiting.{frame_bytes, frames_bytes}
use demo_iot_app_hw.Connector.State.{CcFsm, paho_recv_buff_size}
use demo_iot_app_hw.Connector.Handlers.{cloud_connector_rpc_write}
use demo_iot_app_hw.Connector.Calls.{message}
use demo_iot_app_hw.Connector.Forward.{Carries, taken, rpc_write-forwarded}
use demo_iot_app_hw.Sensor.{cloud_connector_write, send_rounds}
use demo_iot_app_hw.Sensor.Values.{sensor_publish}
use demo_iot_app_hw.Sensor.Configured.{IsReadBack}
use demo_iot_app_hw.Base.Memory.{region-ok}
use demo_iot_app_hw.System.{connected}
use demo_iot_app_hw.System.Replies.{
  Reply, Answers, IsWritten, IsServing, cloud_publish, served, served-IsServing,
}

-- The dataport is memory that both components see, and no smaller than a message; the semaphore, the
-- timer and the dataport have nothing to do with the connection, of which `pending` and `written`
-- tell.
pub record IsJoined {W : Type 0} (device : Device W) (sem : Semaphore W) (pending : W → List ℕ)
    (written : W → List ℕ) : Type 0 where
  pub port-put :
      (bytes : List ℕ) (w : W)
      → length bytes ≤ device.port_size
      → sem.sensor_port (device.put bytes w) ≡ bytes ++ drop (length bytes) (sem.sensor_port w)
  pub port-sem_wait : (w : W) → sem.sensor_port (sem.sem_wait w).1 ≡ sem.sensor_port w
  pub port_long : (w : W) → 1024 ≤ length (sem.sensor_port w)
  pub put :
      (bytes : List ℕ) (w : W)
      → (pending (device.put bytes w) ≡ pending w) × (written (device.put bytes w) ≡ written w)
  pub periodic :
      (id ns : ℕ) (w : W)
      → (pending (device.periodic id ns w).1 ≡ pending w)
        × (written (device.periodic id ns w).1 ≡ written w)
  pub notify_wait :
      (w : W)
      → (pending (device.notify_wait w) ≡ pending w) × (written (device.notify_wait w) ≡ written w)
  pub sem_wait :
      (w : W) → (pending (sem.sem_wait w).1 ≡ pending w) × (written (sem.sem_wait w).1 ≡ written w)
  pub sem_post :
      (w : W) → (pending (sem.sem_post w).1 ≡ pending w) × (written (sem.sem_post w).1 ≡ written w)

module _ {W T M : Type 0} (ts : Timers W T) (p : Paho) (mb : ManagedBuffer M) (law : IsManaged mb)
    (sem : Semaphore W) (er : OsErrors) (device : Device W) (about said : List ℕ)
    (before after : List PublishStore)
    (back : IsReadBack p (sensor_publish about said) before after) (text : IsCString about) where
  -- The dataport holds the packet of the sensor.
  pub carries :
      (self : CcFsm W T) (w : W) (serialized_msg out old : List ℕ) (len : ℕ)
      → p.serialize_publish serialized_msg 320 (sensor_publish about said) ≡ (pos len, out)
      → len ≤ 1024
      → sem.sensor_port w ≡ take len out ++ old
      → 1024 ≤ length (sem.sensor_port w)
      → length self.server.readbuf ≡ paho_recv_buff_size
      → length about + (1 + length said) ≤ length self.buffer
      → Carries p sem self w before 1 after about
  carries self w serialized_msg out old len ser short held long input room = record {
    input = (input, long);
    kind = rw held (back.kind serialized_msg 320 len out old ser short);
    parses = rw held (back.parses serialized_msg 320 len out old ser short (rw held at long));
    has_topic = back.topic self.msg;
    small = omega arith;
    others = back.others;
    text = text;
    fits = rw (back.payload self.msg) room;
  }

  -- A call with the sensor's packet in the dataport publishes its payload under its topic: just one
  -- packet is written, with the next packet id, and the replies up to the PUBACK are read.
  pub rpc_write-served :
      (packet : ℕ → List ℕ) (fuel : ℕ) (self : CcFsm W T) (l : Connection ts self.client) (w : W)
      (serialized_msg out old : List ℕ) (len : ℕ) (r : Reply) (rest : List ℕ)
      → IsJoined device sem l.source.pending l.source.written
      → IsWritten p self.client.sendbuf_size about said packet
      → p.serialize_publish serialized_msg 320 (sensor_publish about said) ≡ (pos len, out)
      → len ≤ 1024
      → sem.sensor_port w ≡ take len out ++ old
      → IsServing self (length about + (1 + length said))
      → Answers p fuel self.client.readbuf_size r
      → l.source.pending w ≡ frames_bytes r.skipped ++ (frame_bytes r.ack ++ rest)
      → let bytes = message sem (sem.sem_wait w).1 in
        (rc : ℤ) × (buf : List ℕ) × (w' : W) × (cloud_connector_rpc_write ts p mb sem er fuel self w
          ≡ ok (rc, served p self bytes (before ++ (store_qos 1 ∷ after)) about buf r, w'))
        × (l.source.pending w' ≡ rest)
        × (l.source.written w' ≡ l.source.written w ++ packet (nth_id self.client.next_packet_id 1))
        × IsServing
            (served p self bytes (before ++ (store_qos 1 ∷ after)) about buf r)
            (length about + (1 + length said))
  rpc_write-served packet fuel self l w serialized_msg out old len r rest joined writes ser short
        held serving answers e =
      let w0 = (sem.sem_wait w).1 in
      let bytes = message sem w0 in
      let list = before ++ (store_qos 1 ∷ after) in
      let last = taken self bytes list about in
      let id = nth_id self.client.next_packet_id 1 in
      let (kept, log) = joined.sem_wait w in
      let c =
        carries self w0 serialized_msg out old len ser short (joined.port-sem_wait w ∙ held)
          (joined.port_long w0) serving.input serving.room in
      let (buf, written, size, front) =
        writes.serialize self.client.sendbuf id serving.sendbuf (omega arith) (omega arith) in
      let as_sent : packet_of about last.msg id ≡ cloud_publish about said id =
        rw (back.retained self.msg, back.payload self.msg) refl in
      let n = length (packet id) in
      let (w', run, left, log') =
        rpc_write-forwarded ts p mb law sem er fuel self w l before 1 after about r.skipped r.ack
          rest r.read n buf c answers.few serving.ready (rw as_sent written) (writes.some_bytes id)
          (omega (arith, size, writes.fits id)) (writes.fits id) answers.awaits (kept ∙ e)
          (answers.reads _) answers.kind in
      let (kept', log'') = joined.sem_post w' in
      let full : length bytes ≡ 1024 =
        length-take 1024 (sem.sensor_port w0) ∙ omega (arith, joined.port_long w0) in
      (
        _,
        buf,
        (sem.sem_post w').1,
        run,
        kept' ∙ left,
        log'' ∙ log' ∙ rw (log, front) refl,
        served-IsServing p fuel (length about + (1 + length said)) self bytes list about buf r
            serving full (rw (back.payload self.msg) serving.room) size answers,
      )

module _ {W T M : Type 0} (ts : Timers W T) (p : Paho) (mb : ManagedBuffer M) (sem : Semaphore W)
    (er : OsErrors) (device : Device W) where
  -- A round of the sensor: the message is copied, the call returns, and the sensor waits for its timer.
  pub send_rounds-round :
      (fuel n : ℕ) (self : CcFsm W T) (w : W) (out : List ℕ) (len : ℕ) (rc : ℤ) (self' : CcFsm W T)
      (w2 : W)
      → len ≤ length out
      → len ≤ device.port_size
      → cloud_connector_rpc_write ts p mb sem er fuel self (device.put (take len out) w)
        ≡ ok (rc, self', w2)
      → send_rounds (connected ts p mb sem er device fuel) (suc n) out (pos len) (self, w)
        ≡ send_rounds
            (connected ts p mb sem er device fuel)
            n
            out
            (pos len)
            (self', device.notify_wait w2)
  unfolding send_rounds cloud_connector_write
  send_rounds-round fuel n self w out len rc self' w2 fits room run =
      let same : length (take len out) ≡ len = length-take len out ∙ omega arith in
      let whole = region-ok out 0 len (omega arith) in
      let small : leb (length (take len out)) device.port_size ≡ true = rw same (ground arith) in
      rw (whole, small, run) refl
