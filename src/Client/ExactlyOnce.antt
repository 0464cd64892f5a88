-- ===== src/Client/ExactlyOnce.antt =====
-- The publication with QoS 2 in MQTT_client.c: PUBLISH, PUBREC, PUBREL, PUBCOMP.
use demo_iot_app_hw.Base.{
  ℕ, ◌≤◌, ◌<◌, ◌≡◌, ◌∙◌, none, List, ◌++◌, length, take, pos, ok, arith, refl,
}
use demo_iot_app_hw.Platform.{Timers, Paho, AckData, mqtt_success, pubrec, pubrel, pubcomp}
use demo_iot_app_hw.Client.State.{MqttClient, Message}
use demo_iot_app_hw.Client.Ids.{nth_id, one_draw}
use demo_iot_app_hw.Client.Send.{send_publish, send_ack, with_sendbuf}
use demo_iot_app_hw.Client.Receive.{check_publish_qos}
use demo_iot_app_hw.Client.Api.{publish}
use demo_iot_app_hw.Client.Link.{Connection, send_serialized-Writes}
use demo_iot_app_hw.Client.Waiting.{
  Frame, frame_bytes, frames_bytes, after_frame, after_frames, length-received, length-received_all,
}
use demo_iot_app_hw.Client.Publishing.{IsReady, Awaits, packet_of, wait_and_read-ack}

-- The packets up to an acknowledgement and that itself, as bytes.
abbrev pub round_bytes : List Frame → Frame → List ℕ
round_bytes fs target = frames_bytes fs ++ frame_bytes target

-- The client once they have been read.
abbrev pub after_round :
    {W T : Type 0} → Paho → MqttClient W T → List Frame → Frame → MqttClient W T
after_round p self fs target = after_frame p (after_frames p self fs) target

-- A client that is ready still is once they have been read.
after_round-IsReady :
    {W T : Type 0} (p : Paho) (self : MqttClient W T) (packet_type : ℕ) (fs : List Frame)
    (target : Frame)
    → IsReady self
    → Awaits p self.readbuf_size packet_type fs target
    → IsReady (after_round p self fs target)
after_round-IsReady p self ty fs target ready awaits =
    let same = length-received_all p ty fs self.readbuf (rw ready.size awaits.others) in
    let here =
      length-received (after_frames p self fs).readbuf target
        (rw (same, ready.size) awaits.readable.fits) in
    record {
      connected = ready.connected;
      no_keep_alive = ready.no_keep_alive;
      size = here ∙ same ∙ ready.size;
      limit = ready.limit;
      id_low = ready.id_low;
      id_high = ready.id_high;
    }

module _ {W T : Type 0} (ts : Timers W T) (p : Paho) where
  -- The handshake behind the PUBLISH: the PUBREC is read, the PUBREL with its packet id is written,
  -- and the PUBCOMP is read.
  check_publish_qos-two :
      (fuel : ℕ) (self : MqttClient W T) (l : Connection ts self) (fs gs : List Frame)
      (rec_frame comp_frame : Frame) (rest : List ℕ) (rec comp : AckData) (len : ℕ) (buf : List ℕ)
      (w : W)
      → length fs < fuel
      → length gs < fuel
      → IsReady self
      → Awaits p self.readbuf_size pubrec fs rec_frame
      → Awaits p self.readbuf_size pubcomp gs comp_frame
      → l.source.pending w
        ≡ frames_bytes fs
          ++ (frame_bytes rec_frame ++ (frames_bytes gs ++ (frame_bytes comp_frame ++ rest)))
      → let self1 = after_round p self fs rec_frame in
        let self2 = with_sendbuf self1 buf in
        let self3 = after_round p self2 gs comp_frame in
        p.deserialize_ack self1.readbuf self.readbuf_size ≡ (pos 1, rec)
        → rec.type ≡ pubrec
        → p.serialize_ack self.sendbuf self.sendbuf_size
            (record { packet_id = rec.packet_id; dup = 0; type = pubrel })
          ≡ (pos len, buf)
        → 0 < len
        → len ≤ length buf
        → len ≤ self.sendbuf_size
        → p.deserialize_ack self3.readbuf self.readbuf_size ≡ (pos 1, comp)
        → comp.type ≡ pubcomp
        → (w' : W) × (check_publish_qos ts p fuel self 2 none w ≡ ok (mqtt_success, self3, w'))
          × (l.source.pending w' ≡ rest)
          × (l.source.written w' ≡ l.source.written w ++ take len buf)
  unfolding check_publish_qos send_ack
  check_publish_qos-two fuel self l fs gs rec_frame comp_frame rest rec comp len buf w enough
        enough' ready awaits awaits' e de kind ser some_bytes fits small de' kind' =
      let behind = frames_bytes gs ++ (frame_bytes comp_frame ++ rest) in
      let self1 = after_round p self fs rec_frame in
      let (w1, run1, left1, log1) =
        wait_and_read-ack ts p fuel self l pubrec fs rec_frame behind rec w enough ready awaits e
          de in
      let ready1 = after_round-IsReady p self pubrec fs rec_frame ready awaits in
      let (w2, run2, (kept2, log2)) =
        send_serialized-Writes ts self1 l len buf w1 some_bytes fits small in
      let self2 = with_sendbuf self1 buf in
      let ready2 : IsReady self2 = record {
        connected = ready1.connected;
        no_keep_alive = ready1.no_keep_alive;
        size = ready1.size;
        limit = ready1.limit;
        id_low = ready1.id_low;
        id_high = ready1.id_high;
      } in
      let (w3, run3, left3, log3) =
        wait_and_read-ack ts p fuel self2 l pubcomp gs comp_frame rest comp w2 enough' ready2
          awaits' (kept2 ∙ left1) de' in
      (w3, ground (arith, run1, ser, run2, run3), left3, log3 ∙ log2 ∙ rw log1 refl)

  -- Over a working connection, a connected client with keep-alive off publishes a message of QoS 2 by
  -- writing exactly two packets: the serialized PUBLISH with the next packet id and, after the PUBREC,
  -- the PUBREL with the packet id of that. The call succeeds as soon as the PUBCOMP arrives, and takes
  -- no byte behind it. Other packets before either acknowledgement are skipped. The packets that are
  -- read fit into the read buffer, those that are written into the send buffer, and the two
  -- acknowledgements carry their own types; no condition is put on their packet ids.
  pub publish_qos2-acknowledged :
      (fuel : ℕ) (self : MqttClient W T) (l : Connection ts self) (topic_name : List ℕ)
      (msg : Message) (fs gs : List Frame) (rec_frame comp_frame : Frame) (rest : List ℕ)
      (rec comp : AckData) (len len' : ℕ) (buf buf' : List ℕ) (w : W)
      → length fs < fuel
      → length gs < fuel
      → IsReady self
      → msg.qos ≡ 2
      → p.serialize_publish self.sendbuf self.sendbuf_size
          (packet_of topic_name msg (nth_id self.next_packet_id 1))
        ≡ (pos len, buf)
      → 0 < len
      → len ≤ length buf
      → len ≤ self.sendbuf_size
      → Awaits p self.readbuf_size pubrec fs rec_frame
      → Awaits p self.readbuf_size pubcomp gs comp_frame
      → l.source.pending w
        ≡ frames_bytes fs
          ++ (frame_bytes rec_frame ++ (frames_bytes gs ++ (frame_bytes comp_frame ++ rest)))
      → let id = nth_id self.next_packet_id 1 in
        let sent = record self { next_packet_id = id; sendbuf = buf } in
        let self1 = after_round p sent fs rec_frame in
        let last = after_round p (with_sendbuf self1 buf') gs comp_frame in
        p.deserialize_ack self1.readbuf self.readbuf_size ≡ (pos 1, rec)
        → rec.type ≡ pubrec
        → p.serialize_ack buf self.sendbuf_size
            (record { packet_id = rec.packet_id; dup = 0; type = pubrel })
          ≡ (pos len', buf')
        → 0 < len'
        → len' ≤ length buf'
        → len' ≤ self.sendbuf_size
        → p.deserialize_ack last.readbuf self.readbuf_size ≡ (pos 1, comp)
        → comp.type ≡ pubcomp
        → (w' : W) × (publish ts p fuel self topic_name msg none w
            ≡ ok (mqtt_success, record msg { id = id }, last, w'))
          × (l.source.pending w' ≡ rest)
          × (l.source.written w' ≡ (l.source.written w ++ take len buf) ++ take len' buf')
  unfolding publish send_publish
  publish_qos2-acknowledged fuel self l topic msg fs gs rec_frame comp_frame rest rec comp len len'
        buf buf' w enough enough' ready two ser some_bytes fits small awaits awaits' e de kind ser'
        some' fits' small' de' kind' =
      let id = nth_id self.next_packet_id 1 in
      let sent = record self { next_packet_id = id; sendbuf = buf } in
      let (w1, run, (kept, log)) =
        send_serialized-Writes ts (record self { next_packet_id = id }) l len buf w some_bytes fits
          small in
      let ready' : IsReady sent = record {
        connected = ready.connected;
        no_keep_alive = ready.no_keep_alive;
        size = ready.size;
        limit = ready.limit;
        id_low = omega arith;
        id_high = omega arith;
      } in
      let (w2, run', left, log') =
        check_publish_qos-two fuel sent l fs gs rec_frame comp_frame rest rec comp len' buf' w1
          enough enough' ready' awaits awaits' (kept ∙ e) de kind ser' some' fits' small' de'
          kind' in
      (
        w2,
        ground (arith, one_draw self ready.id_low ready.id_high, ser, run, run', ready.connected),
        left,
        rw (log', log) refl,
      )
