-- ===== src/Client/Link.antt =====
-- A working connection: reads deliver the pending bytes, and writes go through.
use demo_iot_app_hw.Base.{
  ℕ, ◌-◌, ◌^◌, ◌≤◌, ◌<◌, ◌≡◌, refl, ◌∙◌, none, some, List, ◌++◌, ◌==◌, if◌then◌else◌, length,
  length-take, take, ℤ, pos, Run, ok, arith,
}
use demo_iot_app_hw.Base.Memory.{region-ok}
use demo_iot_app_hw.Platform.{Timers, Network, mqtt_success}
use demo_iot_app_hw.Net.{network_write, network_send_packet}
use demo_iot_app_hw.Net.Source.{Source}
use demo_iot_app_hw.Client.State.{MqttClient}
use demo_iot_app_hw.Client.Send.{send_packet, send_serialized, with_sendbuf}

-- A write with the timer that `sendPacket` makes of its timeout.
abbrev pub timed_write : {W T : Type 0} → Timers W T → Network W → ℕ → List ℕ → W → Run (ℤ × W)
timed_write ts n send_timeout_ms bytes w =
    let (my_timer, w1) = ts.timer_init w in
    let (timer, w2) = ts.timer_countdown_ms my_timer send_timeout_ms w1 in
    if send_timeout_ms == 2 ^ 32 - 1
    then network_write ts n bytes none w
    else network_write ts n bytes (some timer) w2

-- Reads without a timer deliver the pending bytes. A write of at most `largest` bytes succeeds within
-- the timeout, is recorded, and takes nothing from the pending bytes; starting the keep-alive timer
-- changes neither.
pub record Link {W T : Type 0} (ts : Timers W T) (n : Network W) (size largest send_timeout_ms : ℕ)
    : Type 0 where
  pub source : Source ts n none size
  pub sent : List ℕ → W → W
  pub write_ok :
      (bytes : List ℕ) (w : W)
      → length bytes ≤ largest
      → timed_write ts n send_timeout_ms bytes w ≡ ok (mqtt_success, sent bytes w)
  pub pending-sent :
      (bytes : List ℕ) (w : W)
      → length bytes ≤ largest
      → source.pending (sent bytes w) ≡ source.pending w
  pub written-sent :
      (bytes : List ℕ) (w : W)
      → length bytes ≤ largest
      → source.written (sent bytes w) ≡ source.written w ++ bytes
  pub pending-timer_countdown :
      (t : T) (s : ℕ) (w : W) → source.pending (ts.timer_countdown t s w).1 ≡ source.pending w
  pub written-timer_countdown :
      (t : T) (s : ℕ) (w : W) → source.written (ts.timer_countdown t s w).1 ≡ source.written w

-- The connection of a client, for its buffers and its timeout.
abbrev pub Connection : {W T : Type 0} → Timers W T → MqttClient W T → Type 0
Connection ts self = Link ts self.net self.readbuf_size self.sendbuf_size self.send_timeout_ms

-- From `w` to `w'` just `packet` was written, and nothing was read.
abbrev pub Writes :
    {W T : Type 0} {ts : Timers W T} {n : Network W} {size largest send_timeout_ms : ℕ}
    → Link ts n size largest send_timeout_ms
    → W
    → W
    → List ℕ
    → Type 0
Writes l w w' packet =
    (l.source.pending w' ≡ l.source.pending w)
    × (l.source.written w' ≡ l.source.written w ++ packet)

module _ {W T : Type 0} (ts : Timers W T) where
  -- `sendPacket` is such a write of the first `len` bytes of the send buffer.
  send_packet-timed_write :
      (self : MqttClient W T) (len : ℕ) (w : W)
      → len ≤ length self.sendbuf
      → send_packet ts self len w
        ≡ timed_write ts self.net self.send_timeout_ms (take len self.sendbuf) w
  unfolding send_packet network_send_packet
  send_packet-timed_write self len w h = rw (region-ok self.sendbuf 0 len (omega arith)) refl

  -- Over a working connection that goes through.
  pub send_packet-Writes :
      (self : MqttClient W T) (l : Connection ts self) (len : ℕ) (w : W)
      → len ≤ length self.sendbuf
      → len ≤ self.sendbuf_size
      → (w' : W) × (send_packet ts self len w ≡ ok (mqtt_success, w'))
        × Writes l w w' (take len self.sendbuf)
  send_packet-Writes self l len w h small =
      let bytes = take len self.sendbuf in
      let short : length bytes ≤ self.sendbuf_size = omega (arith, length-take len self.sendbuf) in
      (
        l.sent bytes w,
        send_packet-timed_write self len w h ∙ l.write_ok bytes w short,
        (l.pending-sent bytes w short, l.written-sent bytes w short),
      )

  -- A packet that the serializer has put into the send buffer is written as it is.
  pub send_serialized-Writes :
      (self : MqttClient W T) (l : Connection ts self) (len : ℕ) (buf : List ℕ) (w : W)
      → 0 < len
      → len ≤ length buf
      → len ≤ self.sendbuf_size
      → (w' : W) × (send_serialized ts self (pos len, buf) w
          ≡ ok (mqtt_success, with_sendbuf self buf, w'))
        × Writes l w w' (take len buf)
  unfolding send_serialized
  send_serialized-Writes self l len buf w some_bytes fits small =
      let (w', run, done) = send_packet-Writes (with_sendbuf self buf) l len w fits small in
      (w', ground (arith, run), done)
