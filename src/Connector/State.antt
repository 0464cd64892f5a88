-- ===== src/Connector/State.antt =====
-- The state of the CloudConnector (CC_FSM_t). The read and send buffers of the two network contexts
-- are the arrays that `client` and `server` point to, so they are members of those.
use demo_iot_app_hw.Base.{ℕ, ◌*◌, ◌+◌, ◌%◌, ◌^◌, List}
use demo_iot_app_hw.Client.State.{MqttClient, Message}
use demo_iot_app_hw.Server.{MqttServer}

-- `CC_FSM_t`: `sz_topic` is an offset into `buffer`. The counters `pingreq` and `filtered` are
-- never used.
pub record CcFsm (W T : Type 0) : Type 0 where
  pub client : MqttClient W T
  pub server : MqttServer W
  pub msg : Message
  pub sz_topic : ℕ
  pub buffer : List ℕ
  pub cnt_connect : ℕ
  pub cnt_publish : ℕ

abbrev pub paho_timeout_ms_command : ℕ
paho_timeout_ms_command = 1000 * 60 * 5

abbrev pub paho_send_buff_size : ℕ
paho_send_buff_size = 1024

abbrev pub paho_recv_buff_size : ℕ
paho_recv_buff_size = 1024

-- `++` on a `size_t` of 32 bits.
abbrev pub increment : ℕ → ℕ
increment n = (n + 1) % 2 ^ 32
