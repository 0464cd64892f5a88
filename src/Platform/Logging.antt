-- ===== src/Platform/Logging.antt =====
-- The logger library, the time server and the dataports of LogServer.c, as that file calls them. The
-- objects of the file are static; they stand by their names.
use demo_iot_app_hw.Base.{ℕ, List, ℤ}

-- `log_consumer_*`, and the filter of each.
pub data Consumer : Type 0 where
  config_srv : Consumer
  cloud_con : Consumer
  sensor_temp : Consumer
  nic : Consumer
  nw_stack : Consumer
  log_server : Consumer

-- `DATABUFFER_SERVER_01` to `DATABUFFER_SERVER_05`, and `buf_log_server`.
pub data DataBuffer : Type 0 where
  config_server_port : DataBuffer
  cloud_connector_port : DataBuffer
  sensor_port : DataBuffer
  nw_driver_port : DataBuffer
  nw_stack_port : DataBuffer
  buf_log_server : DataBuffer

pub data Subject : Type 0 where
  subject : Subject
  subject_log_server : Subject

pub data Output : Type 0 where
  filesystem : Output
  console : Output
  console_log_server : Output

-- `F` is a file system handle. `consumer_ctor` gets the consumer, its data buffer, the filter, the
-- subject, the id and the name; the callback and the log file are the only ones. `callback_ctor` gets
-- the function that tells the time.
pub record Logger (W F : Type 0) : Type 0 where
  pub level_info : ℕ
  pub chain_get_instance : W → W
  pub subject_ctor : Subject → W → W
  pub file_ctor : F → List ℕ → W → W
  pub output_file_system_ctor : Output → W → W
  pub output_console_ctor : Output → W → W
  pub subject_attach : Subject → Output → W → W
  pub filter_ctor : Consumer → ℕ → W → W
  pub callback_ctor : (W → ℕ × W) → W → W
  pub consumer_ctor : Consumer → DataBuffer → Consumer → Subject → ℕ → List ℕ → W → W
  pub emitter_get_instance : DataBuffer → Consumer → W → W
  pub chain_append : Consumer → W → W
  pub file_create : W → W

-- `TimeServer_getTime` in seconds: the code and the time.
pub record TimeServer (W : Type 0) : Type 0 where
  pub get_time : W → ℤ × ℕ × W
