-- ===== src/Sensor.antt =====
-- components/Sensor/src/SensorTemp.c: a message is serialized once and sent for ever.
pub mod Sending
pub mod Values
pub mod Configured
pub mod Returns
use demo_iot_app_hw.Base.{
  ℕ, zero, suc, ◌-◌, ◌*◌, ◌^◌, Option, none, some, List, length, leb, take, replicate,
  if◌then◌else◌, ℤ, pos, negsuc, ◌==ℤ◌, Run, ok, fault, ◌>>=◌,
}
use demo_iot_app_hw.Base.Memory.{region}
use demo_iot_app_hw.Config.{get_config_parameter}
use demo_iot_app_hw.Config.Names.{strlen}
use demo_iot_app_hw.Config.Into.{read_into}
use demo_iot_app_hw.Platform.{Paho}
use demo_iot_app_hw.Platform.Os.{os_success, OsErrors, ConfigService}
use demo_iot_app_hw.Platform.Sensing.{Sensing}

abbrev pub sec_to_sleep : ℕ
sec_to_sleep = 5

-- The names of the domain and of its two parameters.
pub record SensorNames : Type 0 where
  pub domain_sensor : List ℕ
  pub mqtt_payload_name : List ℕ
  pub mqtt_topic_name : List ℕ

-- The conversion of an `int` to `size_t`, which has 32 bits.
abbrev pub as_size : ℤ → ℕ
as_size (pos n) = n
as_size (negsuc n) = 2 ^ 32 - 1 - n

module _ {W : Type 0} (io : Sensing W) where
  -- `CloudConnector_write`: an `int` length becomes a `size_t`.
  unfoldable pub cloud_connector_write : List ℕ → ℤ → W → Run (ℤ × W)
  cloud_connector_write msg len w = do
    bytes ← region msg 0 (as_size len)
    if leb (length bytes) io.device.port_size then io.rpc_write (io.device.put bytes w) else fault

  -- The `for (;;)` of `run`, after so many rounds; the result of the call is not looked at.
  unfoldable pub send_rounds : ℕ → List ℕ → ℤ → W → Run W
  send_rounds zero msg len w = ok w
  send_rounds (suc rounds) msg len w = do
    (err, w') ← cloud_connector_write msg len w
    send_rounds rounds msg len (io.device.notify_wait w')

module _ {W H E D Q : Type 0} (er : OsErrors) (cs : ConfigService W H E D Q) (names : SensorNames)
    (p : Paho) (io : Sensing W) where
  -- `initializeSensor`: the code and the configuration handle.
  unfoldable pub initialize_sensor : W → ℤ × H × W
  initialize_sensor w =
      let (err, handle, w1) = cs.create_handle_remote w in
      let (ret, w2) = io.device.periodic 1 (1000000000 * sec_to_sleep) w1 in
      if err ==ℤ os_success
      then (if ret ==ℤ pos 0 then (os_success, handle, w2) else (negsuc 0, handle, w2))
      else (err, handle, w1)

  -- `run`: the code with which it returns, or none while it is still sending after so many rounds.
  -- `payload` and `topic` are the static arrays of 128 bytes, and `serialized_msg` is what the array
  -- of 320 bytes on the stack happens to hold. Paho reads the topic up to its terminator.
  unfoldable pub sensor_run : ℕ → ℕ → List ℕ → List ℕ → List ℕ → W → Run (Option ℤ × W)
  sensor_run fuel rounds payload topic serialized_msg w = do
    let (ret, handle, w1) = initialize_sensor w
    if ret ==ℤ os_success
        then (do
          (ret1, payload', w2) ←
              read_into er cs fuel handle names.domain_sensor names.mqtt_payload_name 128 payload w1
          if ret1 ==ℤ os_success
              then (do
                (ret2, topic', w3) ←
                    read_into er cs fuel handle names.domain_sensor names.mqtt_topic_name 128 topic
                      w2
                if ret2 ==ℤ os_success
                    then (do
                      topic_len ← strlen topic'
                      payload_len ← strlen payload'
                      let (len, msg) = p.serialize_publish serialized_msg 320 (record {
                        dup = 0;
                        qos = 1;
                        retained = 0;
                        packet_id = 1;
                        topic_name = take topic_len topic';
                        payload = take payload_len payload';
                      })
                      w4 ← send_rounds io rounds msg len w3
                      ok (none, w4))
                    else ok (some ret2, w3))
              else ok (some ret1, w2))
        else ok (some ret, w1)
