-- ===== src/Server.antt =====
-- components/CloudConnector/src/MQTTServer.c: the side towards the sensor. Its read buffer is the
-- memory that the CloudConnector copies the sensor's message into.
use demo_iot_app_hw.Base.{
  ℕ, ◌-◌, ◌^◌, Option, none, some, List, ◌∷◌, ◌==◌, ltb, if◌then◌else◌, length, ℤ, is_positive,
  to_ℕ, Run, ok, ◌>>=◌, ◌>>◌, debug_assert,
}
use demo_iot_app_hw.Base.Memory.{blit}
use demo_iot_app_hw.Platform.{Timers, Network, Paho, mqtt_failure, pingresp}
use demo_iot_app_hw.Net.{network_send_packet, read_packet, read_header}

-- `MQTTServer`
pub record MqttServer (W : Type 0) : Type 0 where
  pub sendbuf : List ℕ
  pub sendbuf_size : ℕ
  pub readbuf : List ℕ
  pub readbuf_size : ℕ
  pub net : Network W
  pub socket_timeout_ms : ℕ

-- `MQTTServerInit`
unfoldable pub server_init : {W : Type 0} → Network W → ℕ → List ℕ → ℕ → List ℕ → ℕ → MqttServer W
server_init net socket_timeout_ms sendbuf sendbuf_size readbuf readbuf_size = record {
  net = net;
  socket_timeout_ms = socket_timeout_ms;
  sendbuf = sendbuf;
  sendbuf_size = sendbuf_size;
  readbuf = readbuf;
  readbuf_size = readbuf_size;
}

-- `MQTTServer_readType`
unfoldable pub read_type : {W : Type 0} → Paho → MqttServer W → ℕ
read_type p self = read_header p self.readbuf

module _ {W T : Type 0} (ts : Timers W T) where
  -- `MQTTServer_sendPacket`
  unfoldable pub server_send_packet : MqttServer W → ℕ → W → Run (ℤ × W)
  server_send_packet self len w =
      let (my_timer, w1) = ts.timer_init w in
      let (timer, w2) = ts.timer_countdown_ms my_timer self.socket_timeout_ms w1 in
      if self.socket_timeout_ms == 2 ^ 32 - 1
      then network_send_packet ts self.net self.sendbuf len none w
      else network_send_packet ts self.net self.sendbuf len (some timer) w2

module _ {W T : Type 0} (ts : Timers W T) (p : Paho) where
  -- `MQTTServer_readPacket`
  unfoldable pub server_read_packet : MqttServer W → Option T → W → Run (ℤ × MqttServer W × W)
  server_read_packet self timer w = do
    (ret, readbuf, w') ← read_packet ts p self.net self.readbuf self.readbuf_size timer w
    ok (ret, record self { readbuf = readbuf }, w')

  -- `MQTTServer_sendConnAck`
  unfoldable pub send_conn_ack : MqttServer W → ℕ → ℕ → W → Run (ℤ × MqttServer W × W)
  send_conn_ack self connack_rc session_present w =
      let (len, buf) =
        p.serialize_connack self.sendbuf self.sendbuf_size
          (record { rc = connack_rc; session_present = session_present }) in
      let self1 = record self { sendbuf = buf } in
      let sent : Run (ℤ × MqttServer W × W) = (do
        (ret, w') ← server_send_packet ts self1 (to_ℕ len) w
        ok (ret, self1, w')) in
      if is_positive len then sent else ok (mqtt_failure, self1, w)

  -- `MQTTServer_sendPingRes`
  unfoldable pub send_ping_res : MqttServer W → W → Run (ℤ × MqttServer W × W)
  send_ping_res self w =
      let bytes = p.header_byte pingresp ∷ p.encode 0 in
      let sent : Run (ℤ × MqttServer W × W) = (do
        buf ← blit self.sendbuf 0 bytes
        debug_assert (length bytes == 2)
        (ret, w') ← server_send_packet ts (record self { sendbuf = buf }) (length bytes) w
        ok (ret, record self { sendbuf = buf }, w')) in
      if ltb self.sendbuf_size 2 then ok (p.buffer_too_short, self, w) else sent
