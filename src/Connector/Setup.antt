-- ===== src/Connector/Setup.antt =====
-- The start of the CloudConnector: its constructor, the options from the configuration server, and
-- the connection to the cloud. `fuel` bounds each loop on the way.
use demo_iot_app_hw.Base.{
  ℕ, ◌+◌, ◌*◌, Option, none, some, List, [], ◌∷◌, replicate, if◌then◌else◌, ℤ, pos, negsuc, ◌==ℤ◌,
  Run, ok, fault, ◌>>=◌,
}
use demo_iot_app_hw.Config.{get_config_parameter}
use demo_iot_app_hw.Config.Into.{read_into}
use demo_iot_app_hw.Config.Names.{c_string}
use demo_iot_app_hw.Platform.{Timers, Paho, ConnectData, mqtt_success}
use demo_iot_app_hw.Platform.Os.{os_success, OsErrors, ConfigService}
use demo_iot_app_hw.Platform.Camkes.{Semaphore}
use demo_iot_app_hw.Platform.Tls.{TlsStack}
use demo_iot_app_hw.Client.State
use demo_iot_app_hw.Client.State.{MqttClient}
use demo_iot_app_hw.Client.Api
use demo_iot_app_hw.Server.{server_init}
use demo_iot_app_hw.Tls.{wan}
use demo_iot_app_hw.Tls.Socket
use demo_iot_app_hw.Connector.State.{
  CcFsm, paho_timeout_ms_command, paho_send_buff_size, paho_recv_buff_size,
}

-- The static arrays of CloudConnector.c.
pub record Settings : Type 0 where
  pub cloud_device_name : List ℕ
  pub cloud_username : List ℕ
  pub cloud_sas : List ℕ
  pub server_ip : List ℕ
  pub server_cert : List ℕ

-- The names of the parameters in the configuration file, and the two texts of the will.
pub record Names : Type 0 where
  pub domain_cloudconnector : List ℕ
  pub cloud_device_id_name : List ℕ
  pub cloud_domain_name : List ℕ
  pub server_address_name : List ℕ
  pub cloud_sas_name : List ℕ
  pub server_port_name : List ℕ
  pub server_ca_cert_name : List ℕ
  pub famous_last_words : List ℕ
  pub will_topic : List ℕ

-- A `uint32_t` of which all four bytes have been written, low byte first. One that is not
-- initialised cannot be read.
abbrev pub u32_of : Option (List ℕ) → Run ℕ
u32_of (some (a ∷ b ∷ c ∷ d ∷ [])) = ok (a + 256 * (b + 256 * (c + 256 * d)))
u32_of _ = fault

module _ {W H E D Q : Type 0} (er : OsErrors) (cs : ConfigService W H E D Q) (names : Names) where
  -- `set_mqtt_options`
  unfoldable pub set_mqtt_options :
      ℕ → H → Settings → ConnectData → W → Run (ℤ × ConnectData × Settings × W)
  set_mqtt_options fuel handle st options w = do
    (ret, username, w1) ←
        read_into er cs fuel handle names.domain_cloudconnector names.cloud_domain_name 128
          st.cloud_username w
    let st1 = record st { cloud_username = username }
    if ret ==ℤ os_success
        then (do
          (ret', sas, w2) ←
              read_into er cs fuel handle names.domain_cloudconnector names.cloud_sas_name 192
                st1.cloud_sas w1
          let st2 = record st1 { cloud_sas = sas }
          if ret' ==ℤ os_success
              then (do
                (ret'', device, w3) ←
                    read_into er cs fuel handle names.domain_cloudconnector
                      names.cloud_device_id_name 128 st2.cloud_device_name w2
                let st3 = record st2 { cloud_device_name = device }
                let options' = record options {
                  will_flag = 0;
                  mqtt_version = 4;
                  client_id = c_string device;
                  username = c_string username;
                  password = c_string sas;
                  keep_alive_interval = 0;
                  clean_session = 1;
                  will_message = names.famous_last_words;
                  will_qos = 0;
                  will_retained = 0;
                  will_topic_name = names.will_topic;
                }
                if ret'' ==ℤ os_success
                    then ok (os_success, options', st3, w3)
                    else ok (ret'', options, st3, w3))
              else ok (ret', options, st2, w2))
        else ok (ret, options, st1, w1)

-- `do_tls_handshake`: `ret` is the result of the comparison.
unfoldable pub do_tls_handshake : {W : Type 0} → OsErrors → TlsStack W → W → ℤ × W
do_tls_handshake er tls w =
    let (code, w') = Socket.tls_handshake er tls w in
    if code ==ℤ os_success then (os_success, w') else (pos 1, w')

module _ {W T : Type 0} (ts : Timers W T) (p : Paho) where
  -- `do_mqtt_connect`
  unfoldable pub do_mqtt_connect :
      ℕ → MqttClient W T → ConnectData → W → Run (ℤ × MqttClient W T × W)
  do_mqtt_connect fuel client options w = do
    (ret, data_, client', w') ← Api.connect ts p fuel client (some options) none w
    ok ((if ret ==ℤ mqtt_success then pos 0 else negsuc 0), client', w')

module _ {W T H E D Q : Type 0} (er : OsErrors) (cs : ConfigService W H E D Q) (names : Names)
    (tls : TlsStack W) (ts : Timers W T) (p : Paho) (sem : Semaphore W) where
  -- The end of `handle_CC_FSM_INIT`: the TLS session, the MQTT connection, and `sem_post`.
  unfoldable pub establish :
      ℕ → CcFsm W T → Settings → ℕ → ConnectData → W → Run (ℤ × CcFsm W T × W)
  establish fuel self st server_port options w = do
    (ret, w1) ← Socket.tls_init er tls fuel (c_string st.server_ip) st.server_cert server_port w
    let (ret', w2) = do_tls_handshake er tls w1
    if ret ==ℤ os_success
        then (if ret' ==ℤ os_success
            then (do
              (ret'', client, w3) ← do_mqtt_connect ts p fuel self.client options w2
              let self' = record self { client = client }
              let (posted, w4) = sem.sem_post w3
              if ret'' ==ℤ pos 0 then ok (posted, self', w4) else ok (ret'', self', w3))
            else ok (ret', self, w2))
        else ok (ret, self, w1)

  -- The part of `handle_CC_FSM_INIT` from `set_mqtt_options` on; `bytes` is what has been written into
  -- the variable of the port.
  unfoldable pub configure :
      ℕ → H → CcFsm W T → Settings → Option (List ℕ) → W → Run (ℤ × CcFsm W T × Settings × W)
  configure fuel handle self st bytes w = do
    (code, options, st', w') ← set_mqtt_options er cs names fuel handle st p.connect_defaults w
    if code ==ℤ os_success
        then (do
          server_port ← u32_of bytes
          (rc, self', w'') ← establish fuel self st' server_port options w'
          ok (rc, self', st', w''))
        else ok (code, self, st', w')

  -- `handle_CC_FSM_INIT`
  unfoldable pub handle_init : ℕ → H → CcFsm W T → Settings → W → Run (ℤ × CcFsm W T × Settings × W)
  handle_init fuel handle self st w = do
    (ret, ip, w1) ←
        read_into er cs fuel handle names.domain_cloudconnector names.server_address_name 32
          st.server_ip w
    let st1 = record st { server_ip = ip }
    if ret ==ℤ os_success
        then (do
          (ret', bytes, w2) ←
              get_config_parameter er cs fuel handle names.domain_cloudconnector
                names.server_port_name 4 w1
          if ret' ==ℤ os_success
              then (do
                (ret'', cert, w3) ←
                    read_into er cs fuel handle names.domain_cloudconnector
                      names.server_ca_cert_name 4096 st1.server_cert w2
                let st2 = record st1 { server_cert = cert }
                if ret'' ==ℤ os_success
                    then configure fuel handle self st2 bytes w3
                    else ok (ret'', self, st2, w3))
              else ok (ret', self, st1, w2))
        else ok (ret, self, st1, w1)

  -- The state behind the `memset` and the two initialisers: the network object of the server keeps
  -- its null pointers.
  unfoldable pub constructed : ℕ → W → CcFsm W T × W
  constructed fuel w =
      let (client, w') =
        State.init ts (wan er tls fuel) paho_timeout_ms_command (replicate paho_send_buff_size 0)
          paho_send_buff_size (replicate paho_recv_buff_size 0) paho_recv_buff_size w in
      let server =
        server_init (record { mqttread = none; mqttwrite = none }) paho_timeout_ms_command
          (replicate paho_send_buff_size 0) paho_send_buff_size (replicate paho_recv_buff_size 0)
          paho_recv_buff_size in
      (
        record {
          client = client;
          server = server;
          msg = record { qos = 0; retained = 0; dup = 0; id = 0; payload = [] };
          sz_topic = 0;
          buffer = replicate paho_recv_buff_size 0;
          cnt_connect = 0;
          cnt_publish = 0;
        },
        w',
      )

  -- `CC_FSM_ctor`, with `init_config_handle` of init_CloudConnector.c: the code, and where it is 0
  -- the configuration handle and the state.
  unfoldable pub ctor : ℕ → W → ℤ × Option (H × CcFsm W T) × W
  ctor fuel w =
      let (err, handle, w1) = cs.create_handle_remote w in
      let (self, w2) = constructed fuel w1 in
      if err ==ℤ os_success then (pos 0, some (handle, self), w2) else (negsuc 0, none, w1)

  -- The rest of `run` behind `CC_FSM_ctor`.
  unfoldable pub run_with :
      ℕ → Option (H × CcFsm W T) → Settings → W → Run (ℤ × Option (CcFsm W T) × W)
  run_with fuel none st w = ok (negsuc 0, none, w)
  run_with fuel (some (handle, self)) st w = do
    (ret, self', st', w') ← handle_init fuel handle self st w
    ok ((if ret ==ℤ pos 0 then pos 0 else negsuc 0), some self', w')

  -- `run`
  unfoldable pub run : ℕ → Settings → W → Run (ℤ × Option (CcFsm W T) × W)
  unfolding run_with
  run fuel st w = let (ret, self, w') = ctor fuel w in run_with fuel self st w'
