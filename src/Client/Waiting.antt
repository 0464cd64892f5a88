-- ===== src/Client/Waiting.antt =====
-- waitForSpecificPacket of MQTT_client.c over a stream of packets.
use demo_iot_app_hw.Base.{
  All, ℕ, zero, suc, ◌^◌, ◌≤◌, ◌<◌, ◌≡◌, ◌≢◌, refl, Bool, ◌∙◌, Option, none, List, [], ◌∷◌, ◌++◌,
  false, if◌then◌else◌, length, drop, length-drop, length-append, pos, ◌==ℤ◌, ok, arith,
}
use mathlib.Core.List.{append_assoc}
use demo_iot_app_hw.Platform.{Timers, Paho, mqtt_success, pingresp}
use demo_iot_app_hw.Net.Source.{Source, Leaves, Leaves-trans}
use demo_iot_app_hw.Net.Length.{encoding}
use demo_iot_app_hw.Net.Packet.{read_packet-encoding}
use demo_iot_app_hw.Client.State.{MqttClient}
use demo_iot_app_hw.Client.Receive.{
  check_keep_alive, wait_for_next_packet, is_expired, wait_for_specific_packet,
}

-- A packet on the wire, by MQTT 3.1.1: the header byte, the length of the rest, and the rest.
pub record Frame : Type 0 where
  pub header : ℕ
  pub body : List ℕ

abbrev pub frame_bytes : Frame → List ℕ
frame_bytes f = f.header ∷ (encoding 3 (length f.body) ++ f.body)

abbrev pub frames_bytes : List Frame → List ℕ
frames_bytes [] = []
frames_bytes (f ∷ fs) = frame_bytes f ++ frames_bytes fs

-- The frame fits into a buffer of `size` bytes, and Paho writes its length as the standard says.
pub record IsReadable (p : Paho) (size : ℕ) (f : Frame) : Type 0 where
  pub small : length f.body < 2 ^ 28
  pub fits : length (frame_bytes f) ≤ size
  pub encoded : p.encode (length f.body) ≡ encoding 3 (length f.body)

-- The buffer after the frame has been read into it.
abbrev pub received : List ℕ → Frame → List ℕ
received buf f = frame_bytes f ++ drop (length (frame_bytes f)) buf

-- The client after `waitForNextPacket` has read the frame, with keep-alive off.
abbrev pub after_frame : {W T : Type 0} → Paho → MqttClient W T → Frame → MqttClient W T
after_frame p self f = record self {
  readbuf = received self.readbuf f;
  is_ping_outstanding =
      if pos (p.header_type f.header) ==ℤ pos pingresp then false else self.is_ping_outstanding;
}

-- The buffer and the flag after all of them.
abbrev pub received_all : List ℕ → List Frame → List ℕ
received_all buf [] = buf
received_all buf (f ∷ fs) = received_all (received buf f) fs

abbrev pub ping_after : Paho → Bool → List Frame → Bool
ping_after p outstanding [] = outstanding
ping_after p outstanding (f ∷ fs) =
    ping_after p (if pos (p.header_type f.header) ==ℤ pos pingresp then false else outstanding) fs

abbrev pub after_frames : {W T : Type 0} → Paho → MqttClient W T → List Frame → MqttClient W T
after_frames p self fs = record self {
  readbuf = received_all self.readbuf fs;
  is_ping_outstanding = ping_after p self.is_ping_outstanding fs;
}

pub length-received :
    (buf : List ℕ) (f : Frame)
    → length (frame_bytes f) ≤ length buf
    → length (received buf f) ≡ length buf
length-received buf f h = omega (
  arith,
  length-append (frame_bytes f) (drop (length (frame_bytes f)) buf),
  length-drop (length (frame_bytes f)) buf,
)

-- Reading packets that fit does not change the size of the buffer.
pub length-received_all :
    (p : Paho) (packet_type : ℕ) (fs : List Frame) (buf : List ℕ)
    → All (λ f. IsReadable p (length buf) f × (p.header_type f.header ≢ packet_type)) fs
    → length (received_all buf fs) ≡ length buf
length-received_all p ty [] buf all = refl
length-received_all p ty (f ∷ fs) buf ((r, other), all) =
    let same = length-received buf f r.fits in
    length-received_all p ty fs (received buf f) (rw same all) ∙ same

module _ {W T : Type 0} {ts : Timers W T} (p : Paho) where
  wait_for_next_packet-frame :
      (timer : Option T) (self : MqttClient W T) (s : Source ts self.net timer self.readbuf_size)
      (f : Frame) (rest : List ℕ) (w : W)
      → self.keep_alive_interval_ms ≡ 0
      → length self.readbuf ≡ self.readbuf_size
      → self.readbuf_size < 2 ^ 32
      → IsReadable p self.readbuf_size f
      → s.pending w ≡ frame_bytes f ++ rest
      → (w' : W) × (wait_for_next_packet ts p self timer w
          ≡ ok (pos (p.header_type f.header), after_frame p self f, w'))
        × Leaves s w w' rest
  unfolding wait_for_next_packet check_keep_alive
  wait_for_next_packet-frame timer self s f rest w off size lim r e =
      let (w', run, left) =
        read_packet-encoding p s f.header f.body rest self.readbuf w (omega arith) (omega arith)
          r.small r.encoded (omega arith) e in
      let run' = rw size at run in (w', ground (arith, run'), left)

  -- With keep-alive off, a wait without a timer skips every other packet, takes the first one of
  -- the type and nothing behind it, and succeeds, where all of these packets fit into the read
  -- buffer. A round for each packet is enough fuel.
  pub wait_for_specific_packet-frames :
      (fs : List Frame) (fuel : ℕ) (self : MqttClient W T)
      (s : Source ts self.net none self.readbuf_size) (target : Frame) (packet_type : ℕ)
      (rest : List ℕ) (w : W)
      → length fs < fuel
      → self.keep_alive_interval_ms ≡ 0
      → length self.readbuf ≡ self.readbuf_size
      → self.readbuf_size < 2 ^ 32
      → All (λ f. IsReadable p self.readbuf_size f × (p.header_type f.header ≢ packet_type)) fs
      → IsReadable p self.readbuf_size target
      → p.header_type target.header ≡ packet_type
      → s.pending w ≡ frames_bytes fs ++ (frame_bytes target ++ rest)
      → (w' : W) × (wait_for_specific_packet ts p fuel self packet_type none w
          ≡ ok (mqtt_success, after_frame p (after_frames p self fs) target, w'))
        × Leaves s w w' rest
  unfolding wait_for_specific_packet is_expired
  wait_for_specific_packet-frames fs zero self s target ty rest w enough off size lim all r kind e =
      absurd (omega arith)
  wait_for_specific_packet-frames [] (suc fuel) self s target ty rest w enough off size lim all r
        kind e =
      let (w', run, left) = wait_for_next_packet-frame none self s target rest w off size lim r e in
      (w', ground (arith, run), left)
  wait_for_specific_packet-frames (f ∷ fs) (suc fuel) self s target ty rest w enough off size lim
        ((rf, other), all) r kind e =
      let behind = frames_bytes fs ++ (frame_bytes target ++ rest) in
      let here : s.pending w ≡ frame_bytes f ++ behind =
        e ∙ append_assoc (frame_bytes f) (frames_bytes fs) (frame_bytes target ++ rest) in
      let (w1, run, left) =
        wait_for_next_packet-frame none self s f behind w off size lim rf here in
      let size' : length (received self.readbuf f) ≡ self.readbuf_size =
        length-received self.readbuf f (omega (arith, rf.fits)) ∙ size in
      let (w2, run', left') =
        wait_for_specific_packet-frames fs fuel (after_frame p self f) s target ty rest w1
          (omega arith) off size' lim all r kind left.0 in
      (w2, ground (arith, run, run'), Leaves-trans s behind rest left left')
