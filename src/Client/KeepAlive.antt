-- ===== src/Client/KeepAlive.antt =====
-- waitForSpecificPacket of MQTT_client.c on a connection that is lost, with keep-alive on.
use demo_iot_app_hw.Base.{
  ℕ, zero, suc, ◌-◌, ◌≤◌, ◌<◌, ◌^◌, ◌≡◌, ◌≢◌, refl, Option, none, some, List, ◌++◌, if◌then◌else◌,
  true, false, Bool-cases, ◌==◌, inl, inr, ◌⊎◌, ap, sym, ◌∙◌, length, take, drop, ℤ, pos, ◌==ℤ◌, ok,
  arith,
}
use demo_iot_app_hw.Base.Memory.{region-ok}
use demo_iot_app_hw.Platform.{Timers, Paho, Network, mqtt_success, mqtt_failure}
use demo_iot_app_hw.Net.{left_ms, call_write, network_write, network_send_packet}
use demo_iot_app_hw.Client.State.{MqttClient}
use demo_iot_app_hw.Client.Send.{send_packet, send_ping_req, with_sendbuf}
use demo_iot_app_hw.Client.Receive.{
  check_keep_alive, wait_for_next_packet, is_expired, wait_for_specific_packet,
}
use demo_iot_app_hw.Client.Lost.{IsLost, read_packet-lost}

-- In the states of `Dead bytes` reads fail, every timer has expired, writing returns, with whatever code,
-- and `bytes` is what `mqttwrite` has been called with so far. So it is in the states behind each call.
pub record IsSilent {W T : Type 0} (ts : Timers W T) (n : Network W) (Dead : List ℕ → W → Type 0)
    : Type 0 where
  pub lost : (log : List ℕ) → IsLost n (Dead log)
  pub expired :
      (log : List ℕ) (t : T) (w : W)
      → Dead log w
      → ((ts.timer_is_expired t w).0 ≡ true) × Dead log (ts.timer_is_expired t w).1
  pub writes :
      (log bytes : List ℕ) (timeout_ms : ℤ) (w : W)
      → Dead log w
      → (rc : ℤ) × (w' : W) × (call_write n.mqttwrite bytes timeout_ms w ≡ ok (rc, w'))
        × Dead (log ++ bytes) w'
  pub init : (log : List ℕ) (w : W) → Dead log w → Dead log (ts.timer_init w).1
  pub countdown_ms :
      (log : List ℕ) (t : T) (ms : ℕ) (w : W)
      → Dead log w
      → Dead log (ts.timer_countdown_ms t ms w).1
  pub left : (log : List ℕ) (t : Option T) (w : W) → Dead log w → Dead log (left_ms ts t w).1

module _ {W T : Type 0} (ts : Timers W T) (p : Paho) (Dead : List ℕ → W → Type 0)
    {log : List ℕ} where
  network_send_packet-silent :
      (n : Network W) (buf : List ℕ) (len : ℕ) (timer : Option T) (w : W)
      → IsSilent ts n Dead
      → len ≤ length buf
      → Dead log w
      → (rc : ℤ) × (w' : W) × (network_send_packet ts n buf len timer w ≡ ok (rc, w'))
        × Dead (log ++ take len buf) w'
  unfolding network_send_packet network_write
  network_send_packet-silent n buf len timer w silent fits dead =
      let (ms, w1) = left_ms ts timer w in
      let (rc, w', run, dead') =
        silent.writes log (take len (drop 0 buf)) ms w1 (silent.left log timer w dead) in
      (rc, w', rw (region-ok buf 0 len (omega arith), run) refl, dead')

  send_packet-silent :
      (self : MqttClient W T) (len : ℕ) (w : W)
      → IsSilent ts self.net Dead
      → len ≤ length self.sendbuf
      → Dead log w
      → (rc : ℤ) × (w' : W) × (send_packet ts self len w ≡ ok (rc, w'))
        × Dead (log ++ take len self.sendbuf) w'
  unfolding send_packet
  send_packet-silent self len w silent fits dead =
      let (t, w1) = ts.timer_init w in
      let (t', w2) = ts.timer_countdown_ms t self.send_timeout_ms w1 in
      elim (Bool-cases (self.send_timeout_ms == 2 ^ 32 - 1)) [
        | inl never ↦
            let (rc, w', run, dead') =
              network_send_packet-silent self.net self.sendbuf len none w silent fits dead in
            (rc, w', rw never run, dead')
        | inr limited ↦
            let (rc, w', run, dead') =
              network_send_packet-silent self.net self.sendbuf len (some t') w2 silent fits
                (silent.countdown_ms log t self.send_timeout_ms w1 (silent.init log w dead)) in
            (rc, w', rw limited run, dead')
      ]

  -- A round with a ping outstanding fails.
  wait_for_next_packet-outstanding :
      (self : MqttClient W T) (w : W)
      → IsSilent ts self.net Dead
      → self.keep_alive_interval_ms ≢ 0
      → 1 ≤ length self.readbuf
      → self.is_ping_outstanding ≡ true
      → Dead log w
      → (self' : MqttClient W T) × (w' : W) × (wait_for_next_packet ts p self none w
          ≡ ok (mqtt_failure, self', w'))
        × Dead log w'
  unfolding wait_for_next_packet check_keep_alive
  wait_for_next_packet-outstanding self w silent on one outstanding dead =
      let (rc, buf, w', run, same, neg, dead') =
        read_packet-lost ts p (Dead log) self.net self.readbuf self.readbuf_size w (silent.lost log)
          one dead in
      let (late, dead'') = silent.expired log self.timer_last_send w' dead' in
      (
        record self { readbuf = buf },
        (ts.timer_is_expired self.timer_last_send w').1,
        ground (arith, run),
        dead'',
      )

  send_ping_req-silent :
      (self : MqttClient W T) (len : ℕ) (buf : List ℕ) (w : W)
      → IsSilent ts self.net Dead
      → p.serialize_pingreq self.sendbuf self.sendbuf_size ≡ (pos len, buf)
      → 0 < len
      → len ≤ length buf
      → Dead log w
      → (rc : ℤ) × (self' : MqttClient W T) × (w' : W) × (send_ping_req ts p self w
          ≡ ok (rc, self', w'))
        × ((rc ≡ mqtt_failure)
            ⊎ ((rc ≡ mqtt_success)
                × (self' ≡ record self { sendbuf = buf; is_ping_outstanding = true })))
        × Dead (log ++ take len buf) w'
  unfolding send_ping_req
  send_ping_req-silent self len buf w silent ser some_bytes fits dead =
      let (rc, w', run, dead') =
        send_packet-silent (with_sendbuf self buf) len w silent fits dead in
      elim (Bool-cases (rc ==ℤ mqtt_success)) [
        | inl good ↦ (
          mqtt_success,
          record self { sendbuf = buf; is_ping_outstanding = true },
          w',
          ground (arith, ser, run),
          inr (refl, refl),
          dead',
        )
        | inr bad ↦
            (mqtt_failure, with_sendbuf self buf, w', ground (arith, ser, run), inl refl, dead')
      ]

  -- A round without one sends a PINGREQ: that fails, or a ping is outstanding then.
  wait_for_next_packet-ping :
      (self : MqttClient W T) (len : ℕ) (buf : List ℕ) (w : W)
      → IsSilent ts self.net Dead
      → self.keep_alive_interval_ms ≢ 0
      → 1 ≤ length self.readbuf
      → self.is_ping_outstanding ≡ false
      → p.serialize_pingreq self.sendbuf self.sendbuf_size ≡ (pos len, buf)
      → 0 < len
      → len ≤ length buf
      → Dead log w
      → (rc : ℤ) × (self' : MqttClient W T) × (w' : W) × (wait_for_next_packet ts p self none w
          ≡ ok (rc, self', w'))
        × ((rc ≡ mqtt_failure)
            ⊎ ((rc ≡ mqtt_success)
                × (self'.net ≡ self.net)
                × (self'.keep_alive_interval_ms ≢ 0)
                × (1 ≤ length self'.readbuf)
                × (self'.is_ping_outstanding ≡ true)))
        × Dead (log ++ take len buf) w'
  unfolding wait_for_next_packet check_keep_alive
  wait_for_next_packet-ping self len buf w silent on one quiet ser some_bytes fits dead =
      let (rc, readbuf, w1, run, same, neg, dead1) =
        read_packet-lost ts p (Dead log) self.net self.readbuf self.readbuf_size w (silent.lost log)
          one dead in
      let self1 = record self { readbuf = readbuf } in
      let (late, dead2) = silent.expired log self.timer_last_send w1 dead1 in
      let (rc', self', w2, ping, ends, dead3) =
        send_ping_req-silent self1 len buf _ silent ser some_bytes fits dead2 in
      elim ends [
        | inl failed ↦ (mqtt_failure, self', w2, ground (arith, run, ping), inl refl, dead3)
        | inr (sent, is) ↦ (
          mqtt_success,
          self',
          w2,
          ground (arith, run, ping),
          inr (
            refl,
            ap (λ c. c.net) is,
            (λ e. on (sym (ap (λ c. c.keep_alive_interval_ms) is) ∙ e)),
            rw is (omega arith),
            ap (λ c. c.is_ping_outstanding) is,
          ),
          dead3,
        )
      ]

module _ {W T : Type 0} (ts : Timers W T) (p : Paho) (Dead : List ℕ → W → Type 0) where
  -- With keep-alive on, a wait without a timer on a connection that is lost ends with MQTT_FAILURE,
  -- within two rounds. If no ping is outstanding, just one PINGREQ has been handed to `mqttwrite` then,
  -- whatever that returned; if one is, nothing has. This needs reads that fail, writes that return, an
  -- expired timer and a PINGREQ that fits into the send buffer.
  pub wait_for_specific_packet-silent :
      (fuel : ℕ) (self : MqttClient W T) (packet_type len : ℕ) (buf log : List ℕ) (w : W)
      → 2 ≤ fuel
      → IsSilent ts self.net Dead
      → self.keep_alive_interval_ms ≢ 0
      → 1 ≤ length self.readbuf
      → packet_type ≢ 0
      → p.serialize_pingreq self.sendbuf self.sendbuf_size ≡ (pos len, buf)
      → 0 < len
      → len ≤ length buf
      → Dead log w
      → (self' : MqttClient W T) × (w' : W) × (wait_for_specific_packet ts p fuel self packet_type
            none w
          ≡ ok (mqtt_failure, self', w'))
        × Dead (if self.is_ping_outstanding then log else log ++ take len buf) w'
  unfolding wait_for_specific_packet is_expired
  wait_for_specific_packet-silent zero self ty len buf log w enough silent on one kind ser
        some_bytes fits dead =
      absurd (omega arith)
  wait_for_specific_packet-silent (suc zero) self ty len buf log w enough silent on one kind ser
        some_bytes fits dead =
      absurd (omega arith)
  wait_for_specific_packet-silent (suc (suc fuel)) self ty len buf log w enough silent on one kind
        ser some_bytes fits dead =
      elim (Bool-cases self.is_ping_outstanding) [
        | inl outstanding ↦
            let (self', w', run, dead') =
              wait_for_next_packet-outstanding ts p Dead self w silent on one outstanding dead in
            (self', w', rw run refl, rw outstanding dead')
        | inr quiet ↦
            let (rc, self1, w1, run, ends, dead1) =
              wait_for_next_packet-ping ts p Dead self len buf w silent on one quiet ser some_bytes
                fits dead in
            elim ends [
              | inl failed ↦ (self1, w1, rw (run, failed) refl, rw quiet dead1)
              | inr (sent, same, on', one', outstanding) ↦
                  let silent' : IsSilent ts self1.net Dead = rw same silent in
                  let (self', w', run', dead') =
                    wait_for_next_packet-outstanding ts p Dead self1 w1 silent' on' one' outstanding
                      dead1 in
                  let other : (pos 0 ==ℤ pos ty) ≡ false = ground arith in
                  (self', w', rw (run, sent, other, run') refl, rw quiet dead')
            ]
      ]
