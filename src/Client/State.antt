-- ===== src/Client/State.antt =====
-- The state of the MQTT client (MQTT_client.h) and the functions that only change it. An `int` flag
-- is a Boolean; a pointer to a buffer is the bytes that the buffer holds.
use demo_iot_app_hw.Base.{
  ℕ, ◌+◌, Bool, false, List, leb, if◌then◌else◌, Run, ok, ◌>>◌, debug_assert,
}
use demo_iot_app_hw.Platform.{Timers, Network}

-- `MQTT_client_t`
pub record MqttClient (W T : Type 0) : Type 0 where
  pub net : Network W
  pub sendbuf : List ℕ
  pub sendbuf_size : ℕ
  pub readbuf : List ℕ
  pub readbuf_size : ℕ
  pub send_timeout_ms : ℕ
  pub keep_alive_interval_ms : ℕ
  pub next_packet_id : ℕ
  pub is_ping_outstanding : Bool
  pub is_connected : Bool
  pub timer_last_send : T

-- `MQTT_message_t`; `payload` is the `payloadlen` bytes that the pointer leads to.
pub record Message : Type 0 where
  pub qos : ℕ
  pub retained : ℕ
  pub dup : ℕ
  pub id : ℕ
  pub payload : List ℕ

abbrev pub max_packet_id : ℕ
max_packet_id = 65535

module _ {W T : Type 0} where
  -- `getNextPacketId`, with its assertion.
  unfoldable pub get_next_packet_id : MqttClient W T → Run (ℕ × MqttClient W T)
  get_next_packet_id self =
      let id = if leb max_packet_id self.next_packet_id then 1 else self.next_packet_id + 1 in
      debug_assert (leb self.next_packet_id max_packet_id)
      >> ok (id, record self { next_packet_id = id })

  -- `closeSession`
  unfoldable pub close_session : MqttClient W T → MqttClient W T
  close_session self = record self { is_ping_outstanding = false; is_connected = false }

  -- `MQTT_client_init`: every member is set, so what `self` held before does not matter.
  unfoldable pub init :
      Timers W T → Network W → ℕ → List ℕ → ℕ → List ℕ → ℕ → W → MqttClient W T × W
  init ts net send_timeout_ms sendbuf sendbuf_size readbuf readbuf_size w =
      let (timer, w') = ts.timer_init w in
      (
        record {
          net = net;
          sendbuf = sendbuf;
          sendbuf_size = sendbuf_size;
          readbuf = readbuf;
          readbuf_size = readbuf_size;
          send_timeout_ms = send_timeout_ms;
          keep_alive_interval_ms = 0;
          timer_last_send = timer;
          is_connected = false;
          is_ping_outstanding = false;
          next_packet_id = 1;
        },
        w',
      )
