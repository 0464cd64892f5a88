-- ===== src/Client/Publishing.antt =====
-- `MQTT_client_publish`: what a publication sends, what it waits for, and what a failure leaves.
use demo_iot_app_hw.Base.{
  ℕ, ◌^◌, ◌≤◌, ◌<◌, ◌≡◌, ◌≢◌, ◌∙◌, none, some, List, ◌++◌, true, All, length, take, pos, ok, arith,
}
use demo_iot_app_hw.Platform.{Timers, Paho, AckData, Publish, mqtt_success, puback}
use demo_iot_app_hw.Client.State.{MqttClient, Message}
use demo_iot_app_hw.Client.Ids.{nth_id, one_draw}
use demo_iot_app_hw.Client.Send.{send_publish}
use demo_iot_app_hw.Client.Receive.{wait_and_read_specific_ack_packet, check_publish_qos}
use demo_iot_app_hw.Client.Api.{publish}
use demo_iot_app_hw.Client.Link.{Connection, send_serialized-Writes}
use demo_iot_app_hw.Client.Waiting.{
  Frame, frame_bytes, frames_bytes, IsReadable, after_frame, after_frames,
  wait_for_specific_packet-frames,
}

-- A client as the CloudConnector uses it: connected, keep-alive off, and a read buffer as long as
-- its size says.
pub record IsReady {W T : Type 0} (self : MqttClient W T) : Type 0 where
  pub connected : self.is_connected ≡ true
  pub no_keep_alive : self.keep_alive_interval_ms ≡ 0
  pub size : length self.readbuf ≡ self.readbuf_size
  pub limit : self.readbuf_size < 2 ^ 32
  pub id_low : 1 ≤ self.next_packet_id
  pub id_high : self.next_packet_id ≤ 65535

-- `fs` are other packets and `target` is one of the type; all can be read into the buffer.
pub record Awaits (p : Paho) (size packet_type : ℕ) (fs : List Frame) (target : Frame)
    : Type 0 where
  pub others : All (λ f. IsReadable p size f × (p.header_type f.header ≢ packet_type)) fs
  pub readable : IsReadable p size target
  pub kind : p.header_type target.header ≡ packet_type

-- The PUBLISH packet of a message.
abbrev pub packet_of : List ℕ → Message → ℕ → Publish
packet_of topic_name msg id = record {
  dup = 0;
  qos = msg.qos;
  retained = msg.retained;
  packet_id = id;
  topic_name = topic_name;
  payload = msg.payload;
}

module _ {W T : Type 0} (ts : Timers W T) (p : Paho) where
  -- The wait for an acknowledgement reads it, whatever packet id it carries.
  pub wait_and_read-ack :
      (fuel : ℕ) (self : MqttClient W T) (l : Connection ts self) (packet_type : ℕ)
      (fs : List Frame) (target : Frame) (rest : List ℕ) (ack : AckData) (w : W)
      → length fs < fuel
      → IsReady self
      → Awaits p self.readbuf_size packet_type fs target
      → l.source.pending w ≡ frames_bytes fs ++ (frame_bytes target ++ rest)
      → p.deserialize_ack
          (after_frame p (after_frames p self fs) target).readbuf
          (after_frames p self fs).readbuf_size
        ≡ (pos 1, ack)
      → (w' : W) × (wait_and_read_specific_ack_packet ts p fuel self packet_type none w
          ≡ ok (mqtt_success, some ack, after_frame p (after_frames p self fs) target, w'))
        × (l.source.pending w' ≡ rest)
        × (l.source.written w' ≡ l.source.written w)
  unfolding wait_and_read_specific_ack_packet
  wait_and_read-ack fuel self l ty fs target rest ack w enough ready awaits e de =
      let (w', run, (left, log)) =
        wait_for_specific_packet-frames p fs fuel self l.source target ty rest w enough
          ready.no_keep_alive ready.size ready.limit awaits.others awaits.readable awaits.kind e in
      (w', ground (arith, run, de), left, log)

  -- Over a working connection, a connected client with keep-alive off publishes a message of QoS
  -- 1 by writing exactly one packet: the serialized PUBLISH with the next packet id. The call
  -- succeeds as soon as a PUBACK arrives, and takes no byte behind that. Other packets before it
  -- are skipped, where all of them fit into the read buffer and the PUBLISH into the send buffer,
  -- and no condition is put on the packet id that the PUBACK carries.
  pub publish_qos1-acknowledged :
      (fuel : ℕ) (self : MqttClient W T) (l : Connection ts self) (topic_name : List ℕ)
      (msg : Message) (fs : List Frame) (target : Frame) (rest : List ℕ) (ack : AckData) (len : ℕ)
      (buf : List ℕ) (w : W)
      → length fs < fuel
      → IsReady self
      → msg.qos ≡ 1
      → p.serialize_publish self.sendbuf self.sendbuf_size
          (packet_of topic_name msg (nth_id self.next_packet_id 1))
        ≡ (pos len, buf)
      → 0 < len
      → len ≤ length buf
      → len ≤ self.sendbuf_size
      → Awaits p self.readbuf_size puback fs target
      → l.source.pending w ≡ frames_bytes fs ++ (frame_bytes target ++ rest)
      → let sent = record self { next_packet_id = nth_id self.next_packet_id 1; sendbuf = buf } in
        p.deserialize_ack
            (after_frame p (after_frames p sent fs) target).readbuf
            (after_frames p sent fs).readbuf_size
          ≡ (pos 1, ack)
        → ack.type ≡ puback
        → (w' : W) × (publish ts p fuel self topic_name msg none w
            ≡ ok (
              mqtt_success,
              record msg { id = nth_id self.next_packet_id 1 },
              after_frame p (after_frames p sent fs) target,
              w',
            ))
          × (l.source.pending w' ≡ rest)
          × (l.source.written w' ≡ l.source.written w ++ take len buf)
  unfolding publish send_publish check_publish_qos
  publish_qos1-acknowledged fuel self l topic msg fs target rest ack len buf w enough ready one ser
        some_bytes fits small awaits e de kind =
      let id = nth_id self.next_packet_id 1 in
      let drawn = record self { next_packet_id = id } in
      let sent = record self { next_packet_id = id; sendbuf = buf } in
      let (w1, run, (kept, log)) =
        send_serialized-Writes ts drawn l len buf w some_bytes fits small in
      let ready' : IsReady sent = record {
        connected = ready.connected;
        no_keep_alive = ready.no_keep_alive;
        size = ready.size;
        limit = ready.limit;
        id_low = omega arith;
        id_high = omega arith;
      } in
      let (w2, run', left, log') =
        wait_and_read-ack fuel sent l puback fs target rest ack w1 enough ready' awaits (kept ∙ e)
          de in
      (
        w2,
        ground (arith, one_draw self ready.id_low ready.id_high, ser, run, run', ready.connected),
        left,
        log' ∙ log,
      )
