-- ===== src/Sensor/Values.antt =====
-- `run` of SensorTemp.c with the values of the configuration service, up to its sending loop.
use demo_iot_app_hw.Base.{
  ℤ, ◌>>=◌, ℕ, ◌+◌, ◌*◌, ◌≡◌, ◌<◌, refl, ◌∙◌, none, some, List, ◌∷◌, ◌++◌, length, take,
  take-append, drop, pos, ok,
}
use mathlib.Core.List.{append_assoc}
use demo_iot_app_hw.Base.Memory.{overwrite}
use demo_iot_app_hw.Config.Names.{IsCString, strlen, strlen-append}
use demo_iot_app_hw.Config.Search.{IsAnswer-some}
use demo_iot_app_hw.Config.Setting.{Contents, KeepsView, setting}
use demo_iot_app_hw.Config.Contents.{read_into-setting}
use demo_iot_app_hw.Platform.{Paho, Publish}
use demo_iot_app_hw.Platform.Os.{os_success, OsErrors, AreErrors, ConfigService}
use demo_iot_app_hw.Platform.Sensing.{Sensing}
use demo_iot_app_hw.Sensor.{SensorNames, sec_to_sleep, initialize_sensor, sensor_run}
use demo_iot_app_hw.Sensor.{send_rounds}

-- The PUBLISH of the sensor.
abbrev pub sensor_publish : List ℕ → List ℕ → Publish
sensor_publish topic payload = record {
  dup = 0;
  qos = 1;
  retained = 0;
  packet_id = 1;
  topic_name = topic;
  payload = payload;
}

-- A value with a terminator, stored in an array, is the string before the terminator.
strlen-overwrite :
    (text more buf : List ℕ)
    → IsCString text
    → (strlen (overwrite buf 0 (text ++ (0 ∷ more))) ≡ ok (length text))
      × (take (length text) (overwrite buf 0 (text ++ (0 ∷ more))) ≡ text)
strlen-overwrite text more buf is =
    let rest = more ++ drop (0 + length (text ++ (0 ∷ more))) buf in
    let same : overwrite buf 0 (text ++ (0 ∷ more)) ≡ text ++ (0 ∷ rest) =
      append_assoc text (0 ∷ more) (drop (0 + length (text ++ (0 ∷ more))) buf) in
    (rw same (strlen-append text rest is), rw same (take-append text (0 ∷ rest)))

-- The values that the sensor reads: both have a terminator in the array, and what is behind it is
-- `more` and `more'`.
pub record HasValues {W H E D Q : Type 0} (er : OsErrors) (cs : ConfigService W H E D Q)
    (handle : H) (c : Contents cs handle) (names : SensorNames) (said about more more' : List ℕ)
    : Type 0 where
  pub payload :
      setting er cs handle c names.domain_sensor names.mqtt_payload_name 128
      ≡ some (said ++ (0 ∷ more))
  pub topic :
      setting er cs handle c names.domain_sensor names.mqtt_topic_name 128
      ≡ some (about ++ (0 ∷ more'))
  pub is : IsCString said
  pub is' : IsCString about

module _ {W H E D Q V : Type 0} (er : OsErrors) (cs : ConfigService W H E D Q) (handle : H)
    (c : Contents cs handle) (names : SensorNames) (p : Paho) (io : Sensing W) (view : W → V)
    (keeps : KeepsView cs view)
    (still : (id ns : ℕ) (w : W) → view (io.device.periodic id ns w).1 ≡ view w) where
  -- With both values, the sensor sends the serialized message in every round. Up to the first round
  -- nothing changes that the configuration service and the timer do not change.
  pub sensor_run-send_rounds :
      (fuel rounds : ℕ) (len : ℤ) (payload topic serialized_msg said about more more' out : List ℕ)
      (w : W)
      → AreErrors er
      → length c.listing.domains < fuel
      → length payload ≡ 128
      → length topic ≡ 128
      → (cs.create_handle_remote w).0 ≡ os_success
      → (cs.create_handle_remote w).1 ≡ handle
      → (io.device.periodic 1 (1000000000 * sec_to_sleep) (cs.create_handle_remote w).2).0 ≡ pos 0
      → HasValues er cs handle c names said about more more'
      → p.serialize_publish serialized_msg 320 (sensor_publish about said) ≡ (len, out)
      → (w' : W) × (sensor_run er cs names p io fuel rounds payload topic serialized_msg w
          ≡ (send_rounds io rounds out len w' >>= λ w4. ok (none, w4)))
        × (view w' ≡ view w)
  unfolding sensor_run initialize_sensor
  sensor_run-send_rounds fuel rounds len payload topic serialized_msg said about more more' out w
        bad enough size size' made same started has ser =
      let w0 = (cs.create_handle_remote w).2 in
      let w1 = (io.device.periodic 1 (1000000000 * sec_to_sleep) w0).1 in
      let (rc2, w2, run2, answer2, kept2, _) =
        read_into-setting er cs handle c view keeps fuel names.domain_sensor names.mqtt_payload_name
          128 payload w1 bad enough size in
      let (rc3, w3, run3, answer3, kept3, _) =
        read_into-setting er cs handle c view keeps fuel names.domain_sensor names.mqtt_topic_name
          128 topic w2 bad enough size' in
      let good2 : rc2 ≡ os_success =
        IsAnswer-some er cs rc2 (said ++ (0 ∷ more)) (rw has.payload at answer2) in
      let good3 : rc3 ≡ os_success =
        IsAnswer-some er cs rc3 (about ++ (0 ∷ more')) (rw has.topic at answer3) in
      let (long, text) = strlen-overwrite said more payload has.is in
      let (long', text') = strlen-overwrite about more' topic has.is' in
      (
        w3,
        rw
            (
              made, started, same, run2, has.payload, good2, run3, has.topic, good3, long, long',
              text, text', ser,
            )
            refl,
        kept3 ∙ kept2 ∙ still 1 (1000000000 * sec_to_sleep) w0 ∙ keeps.create w,
      )
