-- ===== src/Platform.antt =====
-- The code that the program calls and that is not part of the repository: the timers of the MQTT
-- platform header, the Paho packet library and the network object of `MQTT_net.h`. Each is a record
-- of functions that the definitions take as a parameter. `W` is the state of everything outside the
-- component, and `T` is the platform's `Timer`.
pub mod Packets
pub mod Os
pub mod Camkes
pub mod Sensing
pub mod Tls
pub mod Files
pub mod Logging
pub use Packets.{AckData, ConnackData, ConnectData, Publish, PublishStore}
pub use Packets.{connect, connack, publish, puback, pubrec, pubrel, pubcomp, subscribe, suback}
pub use Packets.{unsubscribe, unsuback, pingreq, pingresp, disconnect}
pub use Packets.{mqtt_success, mqtt_failure, mqtt_buffer_overflow, mqtt_timeout}
use demo_iot_app_hw.Base.{ℕ, Bool, Option, List, ℤ, Run}

pub record Timers (W T : Type 0) : Type 0 where
  pub timer_init : W → T × W
  pub timer_countdown_ms : T → ℕ → W → T × W
  pub timer_countdown : T → ℕ → W → T × W
  pub timer_left_ms : T → W → ℤ × W
  pub timer_is_expired : T → W → Bool × W

-- `Network`: the two function pointers; `none` is a null pointer. `mqttread` gets the bytes that lie
-- at the destination and returns those that it leaves there.
pub record Network (W : Type 0) : Type 0 where
  pub mqttread : Option (List ℕ → ℤ → W → Run (ℤ × List ℕ × W))
  pub mqttwrite : Option (List ℕ → ℤ → W → Run (ℤ × W))

-- The Paho packet functions. A serializer gets the buffer and its size, and returns its result with
-- the bytes that the buffer then holds. `encode` is what `MQTTPacket_encode` writes; that function
-- returns how many bytes this is. `header_type` reads `bits.type` of a header byte, and
-- `header_byte` is the header byte in which only `bits.type` is set. `connect_defaults` is
-- `MQTTPacket_connectData_initializer`, and `buffer_too_short` is `MQTTPACKET_BUFFER_TOO_SHORT`.
pub record Paho : Type 0 where
  pub header_type : ℕ → ℕ
  pub header_byte : ℕ → ℕ
  pub encode : ℕ → List ℕ
  pub buffer_too_short : ℤ
  pub connect_defaults : ConnectData
  pub serialize_connect : List ℕ → ℕ → ConnectData → ℤ × List ℕ
  pub serialize_disconnect : List ℕ → ℕ → ℤ × List ℕ
  pub serialize_pingreq : List ℕ → ℕ → ℤ × List ℕ
  pub serialize_ack : List ℕ → ℕ → AckData → ℤ × List ℕ
  pub serialize_publish : List ℕ → ℕ → Publish → ℤ × List ℕ
  pub serialize_connack : List ℕ → ℕ → ConnackData → ℤ × List ℕ
  pub deserialize_ack : List ℕ → ℕ → ℤ × AckData
  pub deserialize_connack : List ℕ → ℕ → ℤ × ConnackData
  pub deserialize_publish : List ℕ → ℕ → ℤ × List PublishStore
