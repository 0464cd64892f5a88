-- ===== src/LogServer.antt =====
-- components/LogServer/src/LogServer.c: the file system of the log, and the objects of the logger.
pub mod Logs
pub mod Printf
pub mod Format
pub mod Routes
use demo_iot_app_hw.Base.{ℕ, List, [], ◌∷◌, if◌then◌else◌, ℤ, ◌==ℤ◌}
use demo_iot_app_hw.Platform.Os.{os_success}
use demo_iot_app_hw.Platform.Files.{FileSystem}
use demo_iot_app_hw.Platform.Logging.{
  Consumer, config_srv, cloud_con, sensor_temp, nic, nw_stack, log_server, config_server_port,
  cloud_connector_port, sensor_port, nw_driver_port, nw_stack_port, buf_log_server, Subject,
  subject, subject_log_server, filesystem, console, console_log_server, Logger, TimeServer,
}

-- "log.txt"
abbrev pub log_filename : List ℕ
log_filename = 108 ∷ 111 ∷ 103 ∷ 46 ∷ 116 ∷ 120 ∷ 116 ∷ []

-- "CONFIG-SERVER"
abbrev pub config_server_name : List ℕ
config_server_name = 67 ∷ 79 ∷ 78 ∷ 70 ∷ 73 ∷ 71 ∷ 45 ∷ 83 ∷ 69 ∷ 82 ∷ 86 ∷ 69 ∷ 82 ∷ []

-- "CLOUDCONNECTOR"
abbrev pub cloud_connector_name : List ℕ
cloud_connector_name = 67 ∷ 76 ∷ 79 ∷ 85 ∷ 68 ∷ 67 ∷ 79 ∷ 78 ∷ 78 ∷ 69 ∷ 67 ∷ 84 ∷ 79 ∷ 82 ∷ []

-- "SENSOR-TEMP"
abbrev pub sensor_temp_name : List ℕ
sensor_temp_name = 83 ∷ 69 ∷ 78 ∷ 83 ∷ 79 ∷ 82 ∷ 45 ∷ 84 ∷ 69 ∷ 77 ∷ 80 ∷ []

-- "NIC"
abbrev pub nic_name : List ℕ
nic_name = 78 ∷ 73 ∷ 67 ∷ []

-- "NWSTACK"
abbrev pub nw_stack_name : List ℕ
nw_stack_name = 78 ∷ 87 ∷ 83 ∷ 84 ∷ 65 ∷ 67 ∷ 75 ∷ []

-- "LOG-SERVER"
abbrev pub log_server_name : List ℕ
log_server_name = 76 ∷ 79 ∷ 71 ∷ 45 ∷ 83 ∷ 69 ∷ 82 ∷ 86 ∷ 69 ∷ 82 ∷ []

module _ {W F : Type 0} (fs : FileSystem W F) where
  -- `initFileSystem`: after a failed mount, the code of `OS_FileSystem_free` replaces the error.
  unfoldable pub init_file_system : W → ℤ × F × W
  init_file_system w =
      let (err, handle, w1) = fs.fs_init w in
      let (err', w2) = fs.fs_mount handle w1 in
      let (freed, w3) = fs.fs_free handle w2 in
      if err ==ℤ os_success
      then (if err' ==ℤ os_success then (os_success, handle, w2) else (freed, handle, w3))
      else (err, handle, w1)

-- `get_time_sec`
unfoldable pub get_time_sec : {W : Type 0} → TimeServer W → W → ℕ × W
get_time_sec time w =
    let (err, sec, w') = time.get_time w in if err ==ℤ os_success then (sec, w') else (0, w')

module _ {W F : Type 0} (fs : FileSystem W F) (time : TimeServer W) (log : Logger W F) where
  -- `pre_init` up to the filters: the chain, the subjects, the log file, the outputs.
  unfoldable pub set_up_outputs : F → W → W
  set_up_outputs handle w0 =
      let w1 = log.chain_get_instance w0 in
      let w2 = log.subject_ctor subject w1 in
      let w3 = log.subject_ctor subject_log_server w2 in
      let w4 = log.file_ctor handle log_filename w3 in
      let w5 = log.output_file_system_ctor filesystem w4 in
      let w6 = log.output_console_ctor console w5 in
      let w7 = log.output_console_ctor console_log_server w6 in
      let w8 = log.subject_attach subject filesystem w7 in
      let w9 = log.subject_attach subject console w8 in
      log.subject_attach subject_log_server console_log_server w9

  -- The filters, and the callback.
  unfoldable pub set_up_filters : W → W
  set_up_filters w0 =
      let w1 = log.filter_ctor config_srv log.level_info w0 in
      let w2 = log.filter_ctor cloud_con log.level_info w1 in
      let w3 = log.filter_ctor sensor_temp log.level_info w2 in
      let w4 = log.filter_ctor nic log.level_info w3 in
      let w5 = log.filter_ctor nw_stack log.level_info w4 in
      let w6 = log.filter_ctor log_server log.level_info w5 in
      log.callback_ctor (get_time_sec time) w6

  -- The consumers, and the emitter of the log server itself.
  unfoldable pub set_up_consumers : W → W
  set_up_consumers w0 =
      let w1 =
        log.consumer_ctor config_srv config_server_port config_srv subject 10 config_server_name
          w0 in
      let w2 =
        log.consumer_ctor cloud_con cloud_connector_port cloud_con subject 20 cloud_connector_name
          w1 in
      let w3 =
        log.consumer_ctor sensor_temp sensor_port sensor_temp subject 30 sensor_temp_name w2 in
      let w4 = log.consumer_ctor nic nw_driver_port nic subject 40 nic_name w3 in
      let w5 = log.consumer_ctor nw_stack nw_stack_port nw_stack subject 50 nw_stack_name w4 in
      let w6 =
        log.consumer_ctor log_server buf_log_server log_server subject_log_server 0 log_server_name
          w5 in
      log.emitter_get_instance buf_log_server log_server w6

  -- The chain, and the log file.
  unfoldable pub set_up_chain : W → W
  set_up_chain w0 =
      let w1 = log.chain_append config_srv w0 in
      let w2 = log.chain_append cloud_con w1 in
      let w3 = log.chain_append sensor_temp w2 in
      let w4 = log.chain_append nic w3 in
      let w5 = log.chain_append nw_stack w4 in
      let w6 = log.chain_append log_server w5 in log.file_create w6

  -- `pre_init`
  unfoldable pub pre_init : W → W
  pre_init w =
      let (err, handle, w1) = init_file_system fs w in
      if err ==ℤ os_success
      then set_up_chain (set_up_consumers (set_up_filters (set_up_outputs handle w1)))
      else w1
