-- ===== src/Client/Session.antt =====
-- The state in which MQTT_client_connect of MQTT_client.c leaves the client, against what
-- MQTT_client_publish needs.
use demo_iot_app_hw.Base.{
  ℕ, ◌^◌, ◌≤◌, ◌<◌, ◌≡◌, refl, ◌∙◌, none, some, List, ◌++◌, true, false, length, take, pos, ok,
}
use demo_iot_app_hw.Platform.{Timers, Paho, ConnectData, ConnackData, mqtt_success, connack}
use demo_iot_app_hw.Client.State.{MqttClient}
use demo_iot_app_hw.Client.Api.{connect}
use demo_iot_app_hw.Client.Link.{Connection}
use demo_iot_app_hw.Client.Publishing.{IsReady, Awaits}
use demo_iot_app_hw.Client.Waiting.{
  Frame, frame_bytes, frames_bytes, received_all, length-received, length-received_all, after_frame,
  after_frames,
}
use demo_iot_app_hw.Client.Connecting.{connecting, connect-established}

module _ {W T : Type 0} (ts : Timers W T) (p : Paho) where
  -- The client once it is connected: `w` is the outside when the keep-alive timer was started.
  abbrev pub established :
      MqttClient W T → ConnectData → List ℕ → List Frame → Frame → W → MqttClient W T
  established self options buf fs target w =
      record (after_frame p (after_frames p (connecting ts p self options buf w) fs) target) {
        is_connected = true;
        is_ping_outstanding = false;
      }

  pub established-IsReady :
      (self : MqttClient W T) (options : ConnectData) (buf : List ℕ) (fs : List Frame)
      (target : Frame) (w : W)
      → options.keep_alive_interval ≡ 0
      → length self.readbuf ≡ self.readbuf_size
      → self.readbuf_size < 2 ^ 32
      → 1 ≤ self.next_packet_id
      → self.next_packet_id ≤ 65535
      → Awaits p self.readbuf_size connack fs target
      → IsReady (established self options buf fs target w)
  established-IsReady self options buf fs target w off size limit lo hi awaits =
      let same = length-received_all p connack fs self.readbuf (rw size awaits.others) in
      let here =
        length-received (received_all self.readbuf fs) target
          (rw (same, size) awaits.readable.fits) in
      record {
        connected = refl;
        no_keep_alive = off;
        size = here ∙ same ∙ size;
        limit = limit;
        id_low = lo;
        id_high = hi;
      }

  -- Over a working connection, a client that is not connected and whose next packet id is in range
  -- connects with keep-alive off and meets then what a publication asks of the client: it is
  -- connected, keep-alive is off, its read buffer has its size and its packet id is in range. The
  -- serialized CONNECT packet is written, which fits into the send buffer, and no other, and nothing
  -- behind the CONNACK is read.
  pub connect-IsReady :
      (fuel : ℕ) (self : MqttClient W T) (l : Connection ts self) (options : ConnectData)
      (fs : List Frame) (target : Frame) (rest : List ℕ) (reply : ConnackData) (len : ℕ)
      (buf : List ℕ) (w : W)
      → length fs < fuel
      → self.is_connected ≡ false
      → options.keep_alive_interval ≡ 0
      → length self.readbuf ≡ self.readbuf_size
      → self.readbuf_size < 2 ^ 32
      → 1 ≤ self.next_packet_id
      → self.next_packet_id ≤ 65535
      → p.serialize_connect self.sendbuf self.sendbuf_size options ≡ (pos len, buf)
      → 0 < len
      → len ≤ length buf
      → len ≤ self.sendbuf_size
      → Awaits p self.readbuf_size connack fs target
      → l.source.pending w ≡ frames_bytes fs ++ (frame_bytes target ++ rest)
      → let last = after_frame p (after_frames p (connecting ts p self options buf w) fs) target in
        p.deserialize_connack last.readbuf last.readbuf_size ≡ (pos 1, reply)
        → (client : MqttClient W T) × (w' : W) × (connect ts p fuel self (some options) none w
            ≡ ok (mqtt_success, some reply, client, w'))
          × IsReady client
          × (client.next_packet_id ≡ self.next_packet_id)
          × (l.source.pending w' ≡ rest)
          × (l.source.written w' ≡ l.source.written w ++ take len buf)
  connect-IsReady fuel self l options fs target rest reply len buf w enough down off size limit lo
        hi ser some_bytes fits small awaits e de =
      let (w', run, left, log) =
        connect-established ts p fuel self l options fs target rest reply len buf w enough down off
          size limit ser some_bytes fits small awaits e de in
      (
        established self options buf fs target w,
        w',
        run,
        established-IsReady self options buf fs target w off size limit lo hi awaits,
        refl,
        left,
        log,
      )
