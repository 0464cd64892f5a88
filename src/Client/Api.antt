-- ===== src/Client/Api.antt =====
-- The public functions of the MQTT client. `options` and `timer` are pointers, so they are options;
-- `fuel` bounds the rounds of each wait for a packet.
use demo_iot_app_hw.Base.{
  ℕ, Option, none, some, List, true, false, ◌==◌, ◌||◌, if◌then◌else◌, ℤ, pos, ◌==ℤ◌, Run, ok,
  ◌>>=◌,
}
use demo_iot_app_hw.Platform.{
  Timers, Paho, ConnectData, ConnackData, mqtt_success, mqtt_failure, connack,
}
use demo_iot_app_hw.Client.State.{MqttClient, Message, get_next_packet_id, close_session}
use demo_iot_app_hw.Client.Send.{send_connect, send_publish, send_disconnect}
use demo_iot_app_hw.Client.Receive.{wait_for_specific_packet, check_publish_qos}

-- `options`, or the defaults for a null pointer.
abbrev options_or : ConnectData → Option ConnectData → ConnectData
options_or d none = d
options_or d (some options) = options

module _ {W T : Type 0} (ts : Timers W T) (p : Paho) where
  -- `MQTT_client_connect`: the return code, `*data` where it is set, and the client.
  unfoldable pub connect :
      ℕ
      → MqttClient W T
      → Option ConnectData
      → Option T
      → W
      → Run (ℤ × Option ConnackData × MqttClient W T × W)
  connect fuel self options timer w =
      let opts = options_or p.connect_defaults options in
      let (last_send, w1) = ts.timer_countdown self.timer_last_send opts.keep_alive_interval w in
      let self1 = record self {
        keep_alive_interval_ms = opts.keep_alive_interval;
        timer_last_send = last_send;
      } in
      let rest : Run (ℤ × Option ConnackData × MqttClient W T × W) = (do
        (ret, self2, w2) ← send_connect ts p self1 opts w1
        if ret ==ℤ mqtt_success
            then (do
              (ret', self3, w3) ← wait_for_specific_packet ts p fuel self2 connack timer w2
              let (ret'', reply) = p.deserialize_connack self3.readbuf self3.readbuf_size
              if ret' ==ℤ mqtt_success
                  then (if ret'' ==ℤ pos 1
                      then ok (
                        mqtt_success,
                        some reply,
                        record self3 { is_connected = true; is_ping_outstanding = false },
                        w3,
                      )
                      else ok (mqtt_failure, some reply, self3, w3))
                  else ok (mqtt_failure, none, self3, w3))
            else ok (mqtt_failure, none, self2, w2)) in
      if self.is_connected then ok (mqtt_failure, none, self, w) else rest

  -- `MQTT_client_publish`: the return code, the message with its packet id, and the client.
  unfoldable pub publish :
      ℕ → MqttClient W T → List ℕ → Message → Option T → W → Run (ℤ × Message × MqttClient W T × W)
  publish fuel self topic_name msg timer w =
      let with_id : Run (Message × MqttClient W T) =
        (if msg.qos == 1 || msg.qos == 2
          then (get_next_packet_id self >>= λ (id, self'). ok (record msg { id = id }, self'))
          else ok (msg, self)) in
      let rest : Run (ℤ × Message × MqttClient W T × W) = (do
        (msg1, self1) ← with_id
        (ret, self2, w2) ←
            send_publish ts p self1
              (record {
                dup = 0;
                qos = msg1.qos;
                retained = msg1.retained;
                packet_id = msg1.id;
                topic_name = topic_name;
                payload = msg1.payload;
              })
              w
        if ret ==ℤ mqtt_success
            then (do
              (ret', self3, w3) ← check_publish_qos ts p fuel self2 msg1.qos timer w2
              if ret' ==ℤ mqtt_success
                  then ok (mqtt_success, msg1, self3, w3)
                  else ok (mqtt_failure, msg1, close_session self3, w3))
            else ok (mqtt_failure, msg1, close_session self2, w2)) in
      if self.is_connected then rest else ok (mqtt_failure, msg, close_session self, w)

  -- `MQTT_client_disconnect`
  unfoldable pub disconnect : MqttClient W T → W → Run (MqttClient W T × W)
  disconnect self w = do
    (ret, self', w') ← send_disconnect ts p self w
    ok (close_session self', w')
