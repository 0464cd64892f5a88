-- ===== src/Client/Send.antt =====
-- Sending of the MQTT client: `sendPacket` and the functions for one packet each. The result is the
-- return code, the client and the state outside; log messages are not part of the model.
use demo_iot_app_hw.Base.{
  ℕ, ◌-◌, ◌^◌, none, some, List, true, ◌==◌, if◌then◌else◌, ℤ, ◌==ℤ◌, is_positive, to_ℕ, Run, ok,
  ◌>>=◌,
}
use demo_iot_app_hw.Platform.{Timers, Paho, ConnectData, Publish, mqtt_success, mqtt_failure}
use demo_iot_app_hw.Net.{network_send_packet}
use demo_iot_app_hw.Client.State.{MqttClient}

-- The client after a serializer has filled the send buffer.
abbrev pub with_sendbuf : {W T : Type 0} → MqttClient W T → List ℕ → MqttClient W T
with_sendbuf self buf = record self { sendbuf = buf }

module _ {W T : Type 0} (ts : Timers W T) where
  -- `sendPacket`: `send_timeout_ms != -1` compares with the largest unsigned value. The keep-alive
  -- code behind the `return` is never reached.
  unfoldable pub send_packet : MqttClient W T → ℕ → W → Run (ℤ × W)
  send_packet self len w =
      let (my_timer, w1) = ts.timer_init w in
      let (timer, w2) = ts.timer_countdown_ms my_timer self.send_timeout_ms w1 in
      if self.send_timeout_ms == 2 ^ 32 - 1
      then network_send_packet ts self.net self.sendbuf len none w
      else network_send_packet ts self.net self.sendbuf len (some timer) w2

  -- What `sendConnect`, `sendAck` and `sendPublish` do with a serializer's result.
  unfoldable pub send_serialized : MqttClient W T → ℤ × List ℕ → W → Run (ℤ × MqttClient W T × W)
  send_serialized self (len, buf) w =
      let self1 = with_sendbuf self buf in
      let sent : Run (ℤ × MqttClient W T × W) = (do
        (ret, w') ← send_packet self1 (to_ℕ len) w
        ok ((if ret ==ℤ mqtt_success then mqtt_success else mqtt_failure), self1, w')) in
      if is_positive len then sent else ok (mqtt_failure, self1, w)

module _ {W T : Type 0} (ts : Timers W T) (p : Paho) where
  -- `sendConnect`
  unfoldable pub send_connect : MqttClient W T → ConnectData → W → Run (ℤ × MqttClient W T × W)
  unfolding send_serialized
  send_connect self options w =
      send_serialized ts self (p.serialize_connect self.sendbuf self.sendbuf_size options) w

  -- `sendDisconnect`: a failure to send is not reported.
  unfoldable pub send_disconnect : MqttClient W T → W → Run (ℤ × MqttClient W T × W)
  send_disconnect self w =
      let (len, buf) = p.serialize_disconnect self.sendbuf self.sendbuf_size in
      let self1 = with_sendbuf self buf in
      let sent : Run (ℤ × MqttClient W T × W) = (do
        (ret, w') ← send_packet ts self1 (to_ℕ len) w
        ok (mqtt_success, self1, w')) in
      if is_positive len then sent else ok (mqtt_failure, self1, w)

  -- `sendPingReq`
  unfoldable pub send_ping_req : MqttClient W T → W → Run (ℤ × MqttClient W T × W)
  send_ping_req self w =
      let (len, buf) = p.serialize_pingreq self.sendbuf self.sendbuf_size in
      let self1 = with_sendbuf self buf in
      let sent : Run (ℤ × MqttClient W T × W) = (do
        (ret, w') ← send_packet ts self1 (to_ℕ len) w
        if ret ==ℤ mqtt_success
            then ok (mqtt_success, record self1 { is_ping_outstanding = true }, w')
            else ok (mqtt_failure, self1, w')) in
      if is_positive len then sent else ok (mqtt_failure, self1, w)

  -- `sendAck`
  unfoldable pub send_ack : MqttClient W T → ℕ → ℕ → ℕ → W → Run (ℤ × MqttClient W T × W)
  unfolding send_serialized
  send_ack self ack_type dup packet_id w =
      send_serialized ts self
        (p.serialize_ack self.sendbuf self.sendbuf_size
          (record { packet_id = packet_id; dup = dup; type = ack_type }))
        w

  -- `sendPublish`
  unfoldable pub send_publish : MqttClient W T → Publish → W → Run (ℤ × MqttClient W T × W)
  unfolding send_serialized
  send_publish self packet w =
      send_serialized ts self (p.serialize_publish self.sendbuf self.sendbuf_size packet) w
