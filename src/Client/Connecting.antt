-- ===== src/Client/Connecting.antt =====
-- `MQTT_client_connect` over a working connection.
use demo_iot_app_hw.Base.{
  ℕ, ◌^◌, ◌≤◌, ◌<◌, ◌≡◌, refl, ◌∙◌, none, some, List, ◌++◌, true, false, length, take, pos, ok,
  arith,
}
use demo_iot_app_hw.Platform.{Timers, Paho, ConnectData, ConnackData, mqtt_success, connack}
use demo_iot_app_hw.Client.State.{MqttClient}
use demo_iot_app_hw.Client.Send.{send_connect}
use demo_iot_app_hw.Client.Api.{connect}
use demo_iot_app_hw.Client.Link.{Connection, send_serialized-Writes}
use demo_iot_app_hw.Client.Publishing.{Awaits}
use demo_iot_app_hw.Client.Waiting.{
  Frame, frame_bytes, frames_bytes, after_frame, after_frames, wait_for_specific_packet-frames,
}

module _ {W T : Type 0} (ts : Timers W T) (p : Paho) where
  -- The client once the CONNECT packet is in its send buffer.
  abbrev pub connecting : MqttClient W T → ConnectData → List ℕ → W → MqttClient W T
  connecting self options buf w = record self {
    keep_alive_interval_ms = options.keep_alive_interval;
    timer_last_send = (ts.timer_countdown self.timer_last_send options.keep_alive_interval w).0;
    sendbuf = buf;
  }

  -- Over a working connection, and with keep-alive off, a client that is not connected writes the
  -- serialized CONNECT packet and no other, where it fits into the send buffer, waits for the
  -- CONNACK, skips other packets that fit into its read buffer, reads no byte behind the CONNACK, and is connected then, with no ping
  -- outstanding. The CONNACK may carry any return code: one by which the broker refuses the
  -- connection is handed over in `reply` and has no other effect.
  pub connect-established :
      (fuel : ℕ) (self : MqttClient W T) (l : Connection ts self) (options : ConnectData)
      (fs : List Frame) (target : Frame) (rest : List ℕ) (reply : ConnackData) (len : ℕ)
      (buf : List ℕ) (w : W)
      → length fs < fuel
      → self.is_connected ≡ false
      → options.keep_alive_interval ≡ 0
      → length self.readbuf ≡ self.readbuf_size
      → self.readbuf_size < 2 ^ 32
      → p.serialize_connect self.sendbuf self.sendbuf_size options ≡ (pos len, buf)
      → 0 < len
      → len ≤ length buf
      → len ≤ self.sendbuf_size
      → Awaits p self.readbuf_size connack fs target
      → l.source.pending w ≡ frames_bytes fs ++ (frame_bytes target ++ rest)
      → let last = after_frame p (after_frames p (connecting self options buf w) fs) target in
        p.deserialize_connack last.readbuf last.readbuf_size ≡ (pos 1, reply)
        → (w' : W) × (connect ts p fuel self (some options) none w
            ≡ ok (
              mqtt_success,
              some reply,
              record last { is_connected = true; is_ping_outstanding = false },
              w',
            ))
          × (l.source.pending w' ≡ rest)
          × (l.source.written w' ≡ l.source.written w ++ take len buf)
  unfolding connect send_connect
  connect-established fuel self l options fs target rest reply len buf w enough down off size limit
        ser some_bytes fits small awaits e de =
      let (t, w0) = ts.timer_countdown self.timer_last_send options.keep_alive_interval w in
      let begun = record self {
        keep_alive_interval_ms = options.keep_alive_interval;
        timer_last_send = t;
      } in
      let sent = connecting self options buf w in
      let (w1, run, (kept, log)) =
        send_serialized-Writes ts begun l len buf w0 some_bytes fits small in
      let same = l.pending-timer_countdown self.timer_last_send options.keep_alive_interval w in
      let (w2, run', (left, log')) =
        wait_for_specific_packet-frames p fs fuel sent l.source target connack rest w1 enough off
          size limit awaits.others awaits.readable awaits.kind (kept ∙ same ∙ e) in
      (
        w2,
        ground (arith, ser, run, run', down, de),
        left,
        log'
            ∙ log
            ∙ rw (l.written-timer_countdown self.timer_last_send options.keep_alive_interval w)
                refl,
      )
