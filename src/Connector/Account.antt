-- ===== src/Connector/Account.antt =====
-- set_mqtt_options of CloudConnector.c against the contents of the configuration service: the
-- account with which the connection is set up.
use demo_iot_app_hw.Base.{
  ℕ, ◌≡◌, ◌≢◌, ◌<◌, inl, inr, refl, ◌∙◌, Option, none, some, List, length, false, ℤ, ◌==ℤ◌, Run, ok,
  arith,
}
use demo_iot_app_hw.Base.Memory.{overwrite}
use demo_iot_app_hw.Platform.{ConnectData}
use demo_iot_app_hw.Platform.Os.{os_success, OsErrors, AreErrors, ConfigService}
use demo_iot_app_hw.Config.Names.{c_string}
use demo_iot_app_hw.Config.Setting.{Contents, KeepsView, setting, then_option}
use demo_iot_app_hw.Config.Contents.{read_into-setting}
use demo_iot_app_hw.Connector.Setup.{Names, Settings, set_mqtt_options}

-- The arrays have the sizes with which they are declared.
pub record IsSized (st : Settings) : Type 0 where
  pub device_name : length st.cloud_device_name ≡ 128
  pub username : length st.cloud_username ≡ 128
  pub sas : length st.cloud_sas ≡ 192
  pub ip : length st.server_ip ≡ 32
  pub cert : length st.server_cert ≡ 4096

-- The values of the three parameters that the MQTT options need.
pub record Account : Type 0 where
  pub username : List ℕ
  pub sas : List ℕ
  pub device : List ℕ

-- The arrays with the three values at their fronts, and the options made of them.
abbrev pub with_account : Settings → Account → Settings
with_account st a = record st {
  cloud_username = overwrite st.cloud_username 0 a.username;
  cloud_sas = overwrite st.cloud_sas 0 a.sas;
  cloud_device_name = overwrite st.cloud_device_name 0 a.device;
}

abbrev pub options_of : Names → Settings → ConnectData → ConnectData
options_of names st options = record options {
  will_flag = 0;
  mqtt_version = 4;
  client_id = c_string st.cloud_device_name;
  username = c_string st.cloud_username;
  password = c_string st.cloud_sas;
  keep_alive_interval = 0;
  clean_session = 1;
  will_message = names.famous_last_words;
  will_qos = 0;
  will_retained = 0;
  will_topic_name = names.will_topic;
}

module _ {W H E D Q : Type 0} (er : OsErrors) (cs : ConfigService W H E D Q) (handle : H)
    (c : Contents cs handle) (names : Names) where
  -- The value of a parameter in the CloudConnector's domain.
  abbrev pub value_of : List ℕ → ℕ → Option (List ℕ)
  value_of name len = setting er cs handle c names.domain_cloudconnector name len

  abbrev pub account : Option Account
  account = then_option (value_of names.cloud_domain_name 128) (λ username.
      then_option (value_of names.cloud_sas_name 192) (λ sas.
        then_option (value_of names.cloud_device_id_name 128)
          (λ device. some (record { username = username; sas = sas; device = device }))))

module _ {W H E D Q V : Type 0} (er : OsErrors) (cs : ConfigService W H E D Q) (handle : H)
    (c : Contents cs handle) (view : W → V) (keeps : KeepsView cs view) (names : Names) where
  -- How `set_mqtt_options` ends: with an error, or with the options.
  abbrev pub Options :
      Option Account → Run (ℤ × ConnectData × Settings × W) → Settings → ConnectData → W → Type 0
  Options none run st options w =
      (rc : ℤ) × (options' : ConnectData) × (st' : Settings) × (w' : W) × (run
        ≡ ok (rc, options', st', w'))
      × (rc ≢ os_success)
      × (view w' ≡ view w)
  Options (some a) run st options w =
      (w' : W) × (run
        ≡ ok (os_success, options_of names (with_account st a) options, with_account st a, w'))
      × (view w' ≡ view w)

  pub set_mqtt_options-account :
      (fuel : ℕ) (st : Settings) (options : ConnectData) (w : W)
      → AreErrors er
      → length c.listing.domains < fuel
      → IsSized st
      → Options
          (account er cs handle c names)
          (set_mqtt_options er cs names fuel handle st options w)
          st
          options
          w
  unfolding set_mqtt_options
  set_mqtt_options-account fuel st options w bad enough sized =
      let (rc1, w1, run1, answer1, kept1, _) =
        read_into-setting er cs handle c view keeps fuel names.domain_cloudconnector
          names.cloud_domain_name 128 st.cloud_username w bad enough sized.username in
      let (rc2, w2, run2, answer2, kept2, _) =
        read_into-setting er cs handle c view keeps fuel names.domain_cloudconnector
          names.cloud_sas_name 192 st.cloud_sas w1 bad enough sized.sas in
      let (rc3, w3, run3, answer3, kept3, _) =
        read_into-setting er cs handle c view keeps fuel names.domain_cloudconnector
          names.cloud_device_id_name 128 st.cloud_device_name w2 bad enough sized.device_name in
      elim answer1 [
        | inr (failed, missing) ↦
            let no : (rc1 ==ℤ os_success) ≡ false = ground arith in
            rw (run1, missing, no) (rc1, options, st, w1, refl, failed, kept1)
        | inl (good1, (a, is_a)) ↦ elim answer2 [
          | inr (failed, missing) ↦
              let no : (rc2 ==ℤ os_success) ≡ false = ground arith in
              rw (run1, is_a, good1, run2, missing, no)
                (
                  rc2,
                  options,
                  record st { cloud_username = overwrite st.cloud_username 0 a },
                  w2,
                  refl,
                  failed,
                  kept2 ∙ kept1,
                )
          | inl (good2, (b, is_b)) ↦ elim answer3 [
            | inr (failed, missing) ↦
                let no : (rc3 ==ℤ os_success) ≡ false = ground arith in
                rw (run1, is_a, good1, run2, is_b, good2, run3, missing, no)
                  (
                    rc3,
                    options,
                    record st {
                      cloud_username = overwrite st.cloud_username 0 a;
                      cloud_sas = overwrite st.cloud_sas 0 b;
                    },
                    w3,
                    refl,
                    failed,
                    kept3 ∙ kept2 ∙ kept1,
                  )
            | inl (good3, (d, is_d)) ↦
                rw (run1, is_a, good1, run2, is_b, good2, run3, is_d, good3)
                  (w3, refl, kept3 ∙ kept2 ∙ kept1)
          ]
        ]
      ]
