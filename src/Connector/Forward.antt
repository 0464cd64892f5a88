-- ===== src/Connector/Forward.antt =====
-- A PUBLISH from the sensor in cloudConnector_rpc_write of CloudConnector.c.
use demo_iot_app_hw.Base.{
  ℕ, ◌+◌, ◌<◌, ◌≤◌, ◌≡◌, refl, inl, inr, none, some, List, ◌∷◌, ◌++◌, All, if◌then◌else◌, length,
  take, drop, pos, negsuc, ◌==ℤ◌, is_positive, ok, arith, true, false,
}
use demo_iot_app_hw.Config.Names.{IsCString, c_string}
use demo_iot_app_hw.Platform.{Timers, Paho, AckData, PublishStore, publish, puback}
use demo_iot_app_hw.Platform.Packets.{store_qos}
use demo_iot_app_hw.Platform.Os.{os_success, OsErrors}
use demo_iot_app_hw.Platform.Camkes.{Semaphore, ManagedBuffer, IsManaged}
use demo_iot_app_hw.Net.{read_header}
use demo_iot_app_hw.Client.State.{close_session}
use demo_iot_app_hw.Client.Send.{with_sendbuf, send_disconnect}
use demo_iot_app_hw.Client.Api
use demo_iot_app_hw.Client.Ids.{nth_id}
use demo_iot_app_hw.Client.Link.{Connection, send_packet-Writes}
use demo_iot_app_hw.Client.Publishing.{IsReady, Awaits, packet_of, publish_qos1-acknowledged}
use demo_iot_app_hw.Client.Waiting.{Frame, frame_bytes, frames_bytes, after_frame, after_frames}
use demo_iot_app_hw.Connector.State.{CcFsm, paho_recv_buff_size, increment}
use demo_iot_app_hw.Connector.Message.{stores, do_process_publish}
use demo_iot_app_hw.Connector.Copy.{with_copy}
use demo_iot_app_hw.Connector.Process.{IsOther, parsed, do_process_publish_lem}
use demo_iot_app_hw.Connector.Handlers.{handle_publish, dispatch, cloud_connector_rpc_write}
use demo_iot_app_hw.Connector.Calls.{
  HasInput, message, with_input, is_positive-pos, rpc_write-dispatch,
}

-- The state in which `handle_MQTT_PUBLISH` calls `MQTT_client_publish`.
abbrev pub taken : {W T : Type 0} → CcFsm W T → List ℕ → List PublishStore → List ℕ → CcFsm W T
taken self bytes list topic =
    with_copy
      (parsed (record (with_input self bytes) { cnt_publish = increment self.cnt_publish }) list)
      topic

-- The dataport holds a PUBLISH packet with this topic, which fits into the buffer with its payload.
pub record Carries {W T : Type 0} (p : Paho) (sem : Semaphore W) (self : CcFsm W T) (w : W)
    (before : List PublishStore) (q : ℕ) (after : List PublishStore) (topic : List ℕ) : Type 0 where
  pub input : HasInput sem self w
  pub kind : read_header p (message sem w) ≡ publish
  pub parses :
      p.deserialize_publish (message sem w) paho_recv_buff_size
      ≡ (pos 1, before ++ (store_qos q ∷ after))
  pub has_topic : (stores (self.msg, none) (before ++ (store_qos q ∷ after))).1 ≡ some topic
  pub small : q < 256
  pub others : All IsOther after
  pub text : IsCString topic
  pub fits :
      length topic
        + (1 + length (stores (self.msg, none) (before ++ (store_qos q ∷ after))).0.payload)
      ≤ length self.buffer

module _ {W T M : Type 0} (ts : Timers W T) (p : Paho) (mb : ManagedBuffer M) (law : IsManaged mb)
    (sem : Semaphore W) where
  do_process_publish-taken :
      (self : CcFsm W T) (w : W) (before : List PublishStore) (q : ℕ) (after : List PublishStore)
      (topic : List ℕ)
      → Carries p sem self w before q after topic
      → let list = before ++ (store_qos q ∷ after) in
        let last = taken self (message sem w) list topic in
        (do_process_publish mb p
            (record (with_input self (message sem w)) { cnt_publish = increment self.cnt_publish })
            (message sem w)
            paho_recv_buff_size
          ≡ ok (pos 0, last))
        × (c_string (drop last.sz_topic last.buffer) ≡ topic)
  do_process_publish-taken self w before q after topic c =
      let self0 = record (with_input self (message sem w)) {
        cnt_publish = increment self.cnt_publish;
      } in
      elim (do_process_publish_lem mb law p self0 (message sem w) paho_recv_buff_size before q after
        topic c.parses c.has_topic c.small c.others c.text) [
          | inl (fits, run, text, one) ↦ (run, text)
          | inr (wide, _, _) ↦ absurd (omega (arith, wide, c.fits))
        ]

  -- A PUBLISH of the sensor whose topic and payload fit into the buffer is published in the
  -- cloud, where the client is connected with keep-alive off, over a working connection: with the
  -- topic and the payload that it had, as QoS 1 and with the next packet id, whatever its own QoS
  -- and DUP flag. Just that packet is written, which fits into the send buffer; a PUBACK is
  -- awaited, behind packets that are skipped, and nothing behind it is read. The sensor gets
  -- OS_SUCCESS where `sem_post` does.
  pub rpc_write-forwarded :
      (er : OsErrors) (fuel : ℕ) (self : CcFsm W T) (w : W) (l : Connection ts self.client)
      (before : List PublishStore) (q : ℕ) (after : List PublishStore) (topic : List ℕ)
      (fs : List Frame) (target : Frame) (rest : List ℕ) (ack : AckData) (len : ℕ) (buf : List ℕ)
      → let w0 = (sem.sem_wait w).1 in
        let client = self.client in
        let last = taken self (message sem w0) (before ++ (store_qos q ∷ after)) topic in
        let id = nth_id client.next_packet_id 1 in
        let sent = record client { next_packet_id = id; sendbuf = buf } in
        Carries p sem self w0 before q after topic
        → length fs < fuel
        → IsReady client
        → p.serialize_publish client.sendbuf client.sendbuf_size (packet_of topic last.msg id)
          ≡ (pos len, buf)
        → 0 < len
        → len ≤ length buf
        → len ≤ client.sendbuf_size
        → Awaits p client.readbuf_size puback fs target
        → l.source.pending w0 ≡ frames_bytes fs ++ (frame_bytes target ++ rest)
        → p.deserialize_ack
            (after_frame p (after_frames p sent fs) target).readbuf
            (after_frames p sent fs).readbuf_size
          ≡ (pos 1, ack)
        → ack.type ≡ puback
        → (w' : W) × (cloud_connector_rpc_write ts p mb sem er fuel self w
            ≡ ok (
              if (sem.sem_post w').0 ==ℤ os_success then os_success else er.generic,
              record last {
                msg = record last.msg { id = id };
                client = after_frame p (after_frames p sent fs) target;
              },
              (sem.sem_post w').1,
            ))
          × (l.source.pending w' ≡ rest)
          × (l.source.written w' ≡ l.source.written w0 ++ take len buf)
  unfolding dispatch handle_publish
  rpc_write-forwarded er fuel self w l before q after topic fs target rest ack len buf c enough
        ready ser some_bytes fits small awaits e de kind =
      let w0 = (sem.sem_wait w).1 in
      let list = before ++ (store_qos q ∷ after) in
      let last = taken self (message sem w0) list topic in
      let (take_it, text) = do_process_publish-taken self w0 before q after topic c in
      let (w', run, left, log) =
        publish_qos1-acknowledged ts p fuel self.client l topic last.msg fs target rest ack len buf
          w0 enough ready refl ser some_bytes fits small awaits e de kind in
      (
        w',
        rpc_write-dispatch ts p mb sem er fuel self
            (record last {
              msg = record last.msg { id = nth_id self.client.next_packet_id 1 };
              client =
                  after_frame p
                    (after_frames p
                      (record self.client {
                        next_packet_id = nth_id self.client.next_packet_id 1;
                        sendbuf = buf;
                      })
                      fs)
                    target;
            })
            (pos 0) w w' c.input (rw (c.kind, take_it, text, run) refl),
        left,
        log,
      )

  -- Once the session with the cloud is closed, a PUBLISH of the sensor that fits into the buffer
  -- is lost. All that is written, where writing still works, is a DISCONNECT packet, the session
  -- stays closed, and the sensor gets the same result as for a message that has been delivered.
  pub rpc_write-offline :
      (er : OsErrors) (fuel : ℕ) (self : CcFsm W T) (w : W) (l : Connection ts self.client)
      (before : List PublishStore) (q : ℕ) (after : List PublishStore) (topic : List ℕ) (len : ℕ)
      (buf : List ℕ)
      → let w0 = (sem.sem_wait w).1 in
        let last = taken self (message sem w0) (before ++ (store_qos q ∷ after)) topic in
        Carries p sem self w0 before q after topic
        → self.client.is_connected ≡ false
        → p.serialize_disconnect self.client.sendbuf self.client.sendbuf_size ≡ (pos len, buf)
        → 0 < len
        → len ≤ length buf
        → len ≤ self.client.sendbuf_size
        → (w' : W) × (cloud_connector_rpc_write ts p mb sem er fuel self w
            ≡ ok (
              if (sem.sem_post w').0 ==ℤ os_success then os_success else er.generic,
              record last { client = close_session (with_sendbuf self.client buf) },
              (sem.sem_post w').1,
            ))
          × (l.source.pending w' ≡ l.source.pending w0)
          × (l.source.written w' ≡ l.source.written w0 ++ take len buf)
  unfolding dispatch handle_publish Api.publish Api.disconnect send_disconnect close_session
  rpc_write-offline er fuel self w l before q after topic len buf c down ser some_bytes fits small =
      let w0 = (sem.sem_wait w).1 in
      let last = taken self (message sem w0) (before ++ (store_qos q ∷ after)) topic in
      let (take_it, text) = do_process_publish-taken self w0 before q after topic c in
      let closed = with_sendbuf (close_session self.client) buf in
      let (w', run, (kept, log)) = send_packet-Writes ts closed l len w0 fits small in
      let positive : is_positive (pos len) ≡ true = is_positive-pos len some_bytes in
      (
        w',
        rpc_write-dispatch ts p mb sem er fuel self
            (record last { client = close_session (with_sendbuf self.client buf) }) (negsuc 0) w w'
            c.input (rw (c.kind, take_it, text, down, ser, positive, run) refl),
        kept,
        log,
      )
