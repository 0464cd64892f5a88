-- ===== src/Platform/Packets.antt =====
-- The packet data of components/CloudConnector/src/MQTT_client.c and MQTT_net.h: structs that the
-- code fills or reads, the return codes, and the control packet types of MQTT 3.1.1, section 2.2.1.
use demo_iot_app_hw.Base.{ℕ, List, ℤ, pos, negsuc}

-- `ackData_t`
pub record AckData : Type 0 where
  pub packet_id : ℕ
  pub dup : ℕ
  pub type : ℕ

-- `MQTT_connackData_t`
pub record ConnackData : Type 0 where
  pub rc : ℕ
  pub session_present : ℕ

-- The members of Paho's `MQTTPacket_connectData` that the code sets or reads. A C string is the
-- list of its characters, without the terminator.
pub record ConnectData : Type 0 where
  pub will_flag : ℕ
  pub mqtt_version : ℕ
  pub client_id : List ℕ
  pub username : List ℕ
  pub password : List ℕ
  pub keep_alive_interval : ℕ
  pub clean_session : ℕ
  pub will_message : List ℕ
  pub will_qos : ℕ
  pub will_retained : ℕ
  pub will_topic_name : List ℕ

-- The arguments of a PUBLISH packet.
pub record Publish : Type 0 where
  pub dup : ℕ
  pub qos : ℕ
  pub retained : ℕ
  pub packet_id : ℕ
  pub topic_name : List ℕ
  pub payload : List ℕ

-- One store of `MQTTDeserialize_publish` through an out-parameter. `store_qos` writes an `int`.
-- The topic and the payload point into the input buffer: they are stored as the bytes there.
pub data PublishStore : Type 0 where
  store_dup : ℕ → PublishStore
  store_qos : ℕ → PublishStore
  store_retained : ℕ → PublishStore
  store_packet_id : ℕ → PublishStore
  store_topic : List ℕ → PublishStore
  store_payload : List ℕ → PublishStore

-- The anonymous enum of MQTT_net.h.
abbrev pub mqtt_success : ℤ
mqtt_success = pos 0

abbrev pub mqtt_failure : ℤ
mqtt_failure = negsuc 0

abbrev pub mqtt_buffer_overflow : ℤ
mqtt_buffer_overflow = negsuc 1

abbrev pub mqtt_timeout : ℤ
mqtt_timeout = negsuc 2

abbrev pub connect : ℕ
connect = 1

abbrev pub connack : ℕ
connack = 2

abbrev pub publish : ℕ
publish = 3

abbrev pub puback : ℕ
puback = 4

abbrev pub pubrec : ℕ
pubrec = 5

abbrev pub pubrel : ℕ
pubrel = 6

abbrev pub pubcomp : ℕ
pubcomp = 7

abbrev pub subscribe : ℕ
subscribe = 8

abbrev pub suback : ℕ
suback = 9

abbrev pub unsubscribe : ℕ
unsubscribe = 10

abbrev pub unsuback : ℕ
unsuback = 11

abbrev pub pingreq : ℕ
pingreq = 12

abbrev pub pingresp : ℕ
pingresp = 13

abbrev pub disconnect : ℕ
disconnect = 14
