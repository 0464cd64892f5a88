-- ===== src/Sensor/Returns.antt =====
-- How `run` of SensorTemp.c returns: each error before its sending loop.
use demo_iot_app_hw.Base.{
  ℕ, ◌*◌, ◌≡◌, ◌≢◌, ◌⊎◌, inl, inr, ◌<◌, refl, ◌∙◌, none, some, false, List, Bool-cases, length, ℤ,
  ◌==ℤ◌, pos, negsuc, ok, arith,
}
use demo_iot_app_hw.Config.Setting.{Contents, KeepsView, setting}
use demo_iot_app_hw.Config.Contents.{read_into-setting}
use demo_iot_app_hw.Platform.{Paho}
use demo_iot_app_hw.Platform.Os.{os_success, OsErrors, AreErrors, ConfigService}
use demo_iot_app_hw.Platform.Sensing.{Sensing}
use demo_iot_app_hw.Sensor.{SensorNames, sec_to_sleep, initialize_sensor, sensor_run}

module _ {W H E D Q V : Type 0} (er : OsErrors) (cs : ConfigService W H E D Q) (handle : H)
    (c : Contents cs handle) (names : SensorNames) (p : Paho) (io : Sensing W) (view : W → V)
    (keeps : KeepsView cs view)
    (still : (id ns : ℕ) (w : W) → view (io.device.periodic id ns w).1 ≡ view w) where
  -- Where the handle to the configuration or the timer cannot be had, or one of the two values is
  -- missing, `run` of the sensor returns an error code, however many rounds it is given: nothing has
  -- changed that the configuration service and the timer do not change, so nothing was sent. This needs
  -- arrays of 128 bytes and a round for each domain and one more.
  pub sensor_run-returns :
      (fuel rounds : ℕ) (payload topic serialized_msg : List ℕ) (w : W)
      → AreErrors er
      → length c.listing.domains < fuel
      → length payload ≡ 128
      → length topic ≡ 128
      → (cs.create_handle_remote w).1 ≡ handle
      → ((cs.create_handle_remote w).0 ≢ os_success)
        ⊎ (((io.device.periodic 1 (1000000000 * sec_to_sleep) (cs.create_handle_remote w).2).0
              ≢ pos 0)
            ⊎ ((setting er cs handle c names.domain_sensor names.mqtt_payload_name 128 ≡ none)
                ⊎ (setting er cs handle c names.domain_sensor names.mqtt_topic_name 128 ≡ none)))
      → (rc : ℤ) × (w' : W) × (sensor_run er cs names p io fuel rounds payload topic serialized_msg
            w
          ≡ ok (some rc, w'))
        × (rc ≢ os_success)
        × (view w' ≡ view w)
  unfolding sensor_run initialize_sensor
  sensor_run-returns fuel rounds payload topic serialized_msg w bad enough size size' same cause =
      let (err, h, w0) = cs.create_handle_remote w in
      let (ret, w1) = io.device.periodic 1 (1000000000 * sec_to_sleep) w0 in
      let (rc2, w2, run2, answer2, kept2, _) =
        read_into-setting er cs handle c view keeps fuel names.domain_sensor names.mqtt_payload_name
          128 payload w1 bad enough size in
      let (rc3, w3, run3, answer3, kept3, _) =
        read_into-setting er cs handle c view keeps fuel names.domain_sensor names.mqtt_topic_name
          128 topic w2 bad enough size' in
      let kept0 = keeps.create w in
      let kept1 = still 1 (1000000000 * sec_to_sleep) w0 ∙ kept0 in
      elim (Bool-cases (err ==ℤ os_success)) [
        | inr refused ↦ (err, w0, rw (refused, refused) refl, ground arith, kept0)
        | inl made ↦ elim (Bool-cases (ret ==ℤ pos 0)) [
          | inr refused ↦ (negsuc 0, w1, rw (made, refused) refl, (λ e. ground arith), kept1)
          | inl started ↦ elim answer2 [
            | inr (failed, missing) ↦
                let wrong : (rc2 ==ℤ os_success) ≡ false = ground arith in
                (rc2, w2, rw (made, started, same, run2, wrong) refl, failed, kept2 ∙ kept1)
            | inl (good2, (said, is_said)) ↦ elim answer3 [
              | inr (failed, missing) ↦
                  let wrong : (rc3 ==ℤ os_success) ≡ false = ground arith in
                  (
                    rc3,
                    w3,
                    rw (made, started, same, run2, good2, run3, wrong) refl,
                    failed,
                    kept3 ∙ kept2 ∙ kept1,
                  )
              | inl (good3, (about, is_about)) ↦ absurd (elim cause [
                | inl never ↦ never (ground arith)
                | inr (inl never) ↦ never (ground arith)
                | inr (inr (inl missing)) ↦ ground arith
                | inr (inr (inr missing)) ↦ ground arith
              ])
            ]
          ]
        ]
      ]
