-- ===== src/Client/Receive.antt =====
-- Receiving of the MQTT client. The `for (;;)` of `waitForSpecificPacket` runs on fuel: a round for
-- each packet or failed read.
use demo_iot_app_hw.Base.{
  ℕ, zero, suc, Option, none, some, Bool, false, ◌==◌, if◌then◌else◌, ℤ, pos, negsuc, ◌==ℤ◌,
  is_negative, Run, ok, out_of_fuel, ◌>>=◌, ◌>>◌, debug_assert,
}
use demo_iot_app_hw.Platform.{
  Timers, Paho, AckData, mqtt_success, mqtt_failure, mqtt_timeout, puback, pubrec, pubrel, pubcomp,
  pingresp,
}
use demo_iot_app_hw.Net.{read_packet}
use demo_iot_app_hw.Client.State.{MqttClient}
use demo_iot_app_hw.Client.Send.{send_ping_req, send_ack}

-- What `checkPublishQos` does where an acknowledgement was read: the assertion on its type, then
-- the rest; without one it fails.
abbrev pub with_ack : {A : Type 0} → ℕ → Option AckData → Run A → (AckData → Run A) → Run A
with_ack ack_type none failed next = failed
with_ack ack_type (some ack) failed next = debug_assert (ack.type == ack_type) >> next ack

module _ {W T : Type 0} (ts : Timers W T) (p : Paho) where
  -- The second half of `waitForNextPacket`, from the keep-alive test on. `packet_type` is -1 where
  -- no packet was read.
  unfoldable pub check_keep_alive : ℤ → MqttClient W T → W → Run (ℤ × MqttClient W T × W)
  check_keep_alive packet_type self w =
      let result = if packet_type ==ℤ negsuc 0 then mqtt_success else packet_type in
      let (expired, w1) = ts.timer_is_expired self.timer_last_send w in
      let ping : Run (ℤ × MqttClient W T × W) = (do
        (ret, self', w2) ← send_ping_req ts p self w1
        if ret ==ℤ mqtt_success
            then ok (result, self', w2)
            else (if packet_type ==ℤ negsuc 0
                then ok (mqtt_failure, self', w2)
                else ok (result, self', w2))) in
      if self.keep_alive_interval_ms == 0
      then ok (result, self, w)
      else (if expired
          then (if self.is_ping_outstanding then ok (mqtt_failure, self, w1) else ping)
          else ok (result, self, w1))

  -- `waitForNextPacket`
  unfoldable pub wait_for_next_packet : MqttClient W T → Option T → W → Run (ℤ × MqttClient W T × W)
  wait_for_next_packet self timer w = do
    (ret, readbuf, w') ← read_packet ts p self.net self.readbuf self.readbuf_size timer w
    check_keep_alive (if is_negative ret then negsuc 0 else ret)
        (record self {
          readbuf = readbuf;
          is_ping_outstanding = if ret ==ℤ pos pingresp then false else self.is_ping_outstanding;
        })
        w'

  -- `timer && TimerIsExpired(timer)`
  unfoldable pub is_expired : Option T → W → Bool × W
  is_expired none w = (false, w)
  is_expired (some t) w = ts.timer_is_expired t w

  -- `waitForSpecificPacket`
  unfoldable pub wait_for_specific_packet :
      ℕ → MqttClient W T → ℕ → Option T → W → Run (ℤ × MqttClient W T × W)
  wait_for_specific_packet zero self packet_type timer w = out_of_fuel
  wait_for_specific_packet (suc fuel) self packet_type timer w =
      let (expired, w1) = is_expired timer w in
      let next : Run (ℤ × MqttClient W T × W) =
        (wait_for_next_packet self timer w1 >>= λ (ret, self', w2).
        let again = wait_for_specific_packet fuel self' packet_type timer w2 in
        if is_negative ret
        then ok (mqtt_failure, self', w2)
        else (if ret ==ℤ pos packet_type then ok (mqtt_success, self', w2) else again)) in
      if expired then ok (mqtt_timeout, self, w1) else next

  -- `waitAndReadSpecificAckPacket`: the return code and `*data`, which is set only on success.
  unfoldable pub wait_and_read_specific_ack_packet :
      ℕ → MqttClient W T → ℕ → Option T → W → Run (ℤ × Option AckData × MqttClient W T × W)
  wait_and_read_specific_ack_packet fuel self ack_packet_type timer w = do
    (ret, self', w') ← wait_for_specific_packet fuel self ack_packet_type timer w
    let (len, ack) = p.deserialize_ack self'.readbuf self'.readbuf_size
    if ret ==ℤ mqtt_success
        then (if len ==ℤ pos 1
            then ok (mqtt_success, some ack, self', w')
            else ok (mqtt_failure, none, self', w'))
        else ok (mqtt_failure, none, self', w')

  -- `checkPublishQos`
  unfoldable pub check_publish_qos :
      ℕ → MqttClient W T → ℕ → Option T → W → Run (ℤ × MqttClient W T × W)
  check_publish_qos fuel self qos timer w =
      let qos1 : Run (ℤ × MqttClient W T × W) = (do
        (ret, ack, self1, w1) ← wait_and_read_specific_ack_packet fuel self puback timer w
        with_ack puback ack (ok (mqtt_failure, self1, w1)) λ _. ok (mqtt_success, self1, w1)) in
      let qos2 : Run (ℤ × MqttClient W T × W) = (do
        (ret, ack, self1, w1) ← wait_and_read_specific_ack_packet fuel self pubrec timer w
        with_ack pubrec ack (ok (mqtt_failure, self1, w1)) λ rec. (do
          (ret', self2, w2) ← send_ack ts p self1 pubrel 0 rec.packet_id w1
          if ret' ==ℤ mqtt_success
              then (do
                (ret'', comp, self3, w3) ←
                    wait_and_read_specific_ack_packet fuel self2 pubcomp timer w2
                with_ack pubcomp comp (ok (mqtt_failure, self3, w3))
                    λ _. ok (mqtt_success, self3, w3))
              else ok (mqtt_failure, self2, w2))) in
      if qos == 0
      then ok (mqtt_success, self, w)
      else (if qos == 1 then qos1 else (if qos == 2 then qos2 else ok (mqtt_failure, self, w)))
