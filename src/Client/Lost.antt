-- ===== src/Client/Lost.antt =====
-- waitForSpecificPacket of MQTT_client.c on a connection that is lost, with keep-alive off and no timer,
-- as the CloudConnector uses it.
use demo_iot_app_hw.Base.{
  ℕ, zero, suc, ◌+◌, ◌≤◌, ◌≡◌, ◌≢◌, refl, none, List, true, length, take, drop, ℤ, negsuc,
  is_negative, ok, out_of_fuel, arith, length-take, length-drop,
}
use demo_iot_app_hw.Base.Memory.{region-ok, blit-ok, overwrite, length-overwrite}
use demo_iot_app_hw.Platform.{Timers, Paho, Network, mqtt_success}
use demo_iot_app_hw.Net.{left_ms, call_read, network_read, read_packet}
use demo_iot_app_hw.Client.State.{MqttClient}
use demo_iot_app_hw.Client.Receive.{
  check_keep_alive, wait_for_next_packet, is_expired, wait_for_specific_packet,
}

-- In the states of `Dead` a read fails with an error code, and the state stays in `Dead`.
pub record IsLost {W : Type 0} (n : Network W) (Dead : W → Type 0) : Type 0 where
  pub fails :
      (buf : List ℕ) (timeout_ms : ℤ) (w : W)
      → Dead w
      → (rc : ℤ) × (bytes : List ℕ) × (w' : W) × (call_read n.mqttread buf timeout_ms w
          ≡ ok (rc, bytes, w'))
        × (length bytes ≡ length buf)
        × (is_negative rc ≡ true)
        × Dead w'

module _ {W T : Type 0} (ts : Timers W T) (p : Paho) (Dead : W → Type 0) where
  pub read_packet-lost :
      (n : Network W) (readbuf : List ℕ) (size : ℕ) (w : W)
      → IsLost n Dead
      → 1 ≤ length readbuf
      → Dead w
      → (rc : ℤ) × (buf : List ℕ) × (w' : W) × (read_packet ts p n readbuf size none w
          ≡ ok (rc, buf, w'))
        × (length buf ≡ length readbuf)
        × (is_negative rc ≡ true)
        × Dead w'
  unfolding read_packet network_read left_ms
  read_packet-lost n readbuf size w lost one dead =
      let old = take 1 (drop 0 readbuf) in
      let (rc, bytes, w', e, same, neg, dead') = lost.fails old (negsuc 0) w dead in
      let there : 0 + length bytes ≤ length readbuf =
        omega (arith, length-take 1 (drop 0 readbuf), length-drop 0 readbuf) in
      (
        rc,
        overwrite readbuf 0 bytes,
        w',
        ground (arith, region-ok readbuf 0 1 (omega arith), e, blit-ok readbuf 0 bytes there),
        length-overwrite readbuf 0 bytes there,
        neg,
        dead',
      )

  -- The error of the read is dropped: the round ends like one without a packet.
  wait_for_next_packet-lost :
      (self : MqttClient W T) (w : W)
      → IsLost self.net Dead
      → self.keep_alive_interval_ms ≡ 0
      → 1 ≤ length self.readbuf
      → Dead w
      → (buf : List ℕ) × (w' : W) × (wait_for_next_packet ts p self none w
          ≡ ok (mqtt_success, record self { readbuf = buf }, w'))
        × (length buf ≡ length self.readbuf)
        × Dead w'
  unfolding wait_for_next_packet check_keep_alive
  wait_for_next_packet-lost self w lost off one dead =
      let (rc, buf, w', run, same, neg, dead') =
        read_packet-lost self.net self.readbuf self.readbuf_size w lost one dead in
      (buf, w', ground (arith, run), same, dead')

  -- On a lost connection, with keep-alive off and no timer, the wait for a packet goes on for ever:
  -- no amount of fuel makes it return.
  pub wait_for_specific_packet-lost :
      (fuel : ℕ) (self : MqttClient W T) (packet_type : ℕ) (w : W)
      → IsLost self.net Dead
      → self.keep_alive_interval_ms ≡ 0
      → 1 ≤ length self.readbuf
      → packet_type ≢ 0
      → Dead w
      → wait_for_specific_packet ts p fuel self packet_type none w ≡ out_of_fuel
  unfolding wait_for_specific_packet is_expired
  wait_for_specific_packet-lost zero self ty w lost off one kind dead = refl
  wait_for_specific_packet-lost (suc fuel) self ty w lost off one kind dead =
      let (buf, w', run, same, dead') = wait_for_next_packet-lost self w lost off one dead in
      ground (
        arith,
        run,
        wait_for_specific_packet-lost fuel (record self { readbuf = buf }) ty w' lost off
            (omega arith) kind dead',
      )
