-- ===== src/Connector/Options.antt =====
-- handle_CC_FSM_INIT of CloudConnector.c against the contents of the configuration service: with which
-- settings the connection is set up, and when it is not.
use demo_iot_app_hw.Base.{
  ℕ, ◌≡◌, ◌≢◌, ◌<◌, inl, inr, refl, ◌∙◌, Option, none, some, List, Option-cases, length, false, ℤ,
  ◌==ℤ◌, ==ℤ_false, Run, ok, ◌>>=◌, arith,
}
use demo_iot_app_hw.Base.Memory.{overwrite}
use demo_iot_app_hw.Platform.{Timers, Paho}
use demo_iot_app_hw.Platform.Os.{os_success, OsErrors, AreErrors, ConfigService}
use demo_iot_app_hw.Platform.Camkes.{Semaphore}
use demo_iot_app_hw.Platform.Tls.{TlsStack}
use demo_iot_app_hw.Config.Setting.{Contents, KeepsView, then_option}
use demo_iot_app_hw.Config.Contents.{get_config_parameter-setting, read_into-setting}
use demo_iot_app_hw.Connector.State.{CcFsm}
use demo_iot_app_hw.Connector.Setup.{Names, Settings, u32_of, establish, configure, handle_init}
use demo_iot_app_hw.Connector.Account.{
  IsSized, Account, with_account, options_of, value_of, account, set_mqtt_options-account,
}

-- The values of all six parameters.
pub record Found : Type 0 where
  pub ip : List ℕ
  pub port : List ℕ
  pub cert : List ℕ
  pub account : Account

abbrev pub with_found : Settings → Found → Settings
with_found st f =
    with_account
      (record st {
        server_ip = overwrite st.server_ip 0 f.ip;
        server_cert = overwrite st.server_cert 0 f.cert;
      })
      f.account

module _ {W H E D Q : Type 0} (er : OsErrors) (cs : ConfigService W H E D Q) (handle : H)
    (c : Contents cs handle) (names : Names) where
  abbrev pub found : Option Found
  found = then_option (value_of er cs handle c names names.server_address_name 32) (λ ip.
      then_option (value_of er cs handle c names names.server_port_name 4) (λ port.
        then_option (value_of er cs handle c names names.server_ca_cert_name 4096) (λ cert.
          then_option (account er cs handle c names)
            (λ a. some (record { ip = ip; port = port; cert = cert; account = a })))))

module _ {W H E D Q V : Type 0} (er : OsErrors) (cs : ConfigService W H E D Q) (handle : H)
    (c : Contents cs handle) (view : W → V) (keeps : KeepsView cs view) (names : Names) where
  module _ {T : Type 0} (tls : TlsStack W) (ts : Timers W T) (p : Paho) (sem : Semaphore W) where
    -- How the start goes on, from `run`: it ends with an error where a value is missing, and sets up
    -- the connection with the values otherwise.
    abbrev pub Start :
        Option Found → Run (ℤ × CcFsm W T × Settings × W) → ℕ → CcFsm W T → Settings → W → Type 0
    Start none run fuel self st w =
        (rc : ℤ) × (st' : Settings) × (w' : W) × (run ≡ ok (rc, self, st', w'))
        × (rc ≢ os_success)
        × (view w' ≡ view w)
    Start (some f) run fuel self st w =
        (w' : W) × (run ≡ (
          u32_of (some f.port) >>= λ server_port.
          (establish er cs names tls ts p sem fuel self (with_found st f) server_port
              (options_of names (with_found st f) p.connect_defaults) w'
            >>= λ (rc, self', w5). ok (rc, self', with_found st f, w5))))
        × (view w' ≡ view w)

    -- The three values that are read first are there.
    configure-account :
        (ip port cert : List ℕ) (fuel : ℕ) (self : CcFsm W T) (st : Settings) (w : W)
        → let st2 = record st {
          server_ip = overwrite st.server_ip 0 ip;
          server_cert = overwrite st.server_cert 0 cert;
        } in
          AreErrors er
          → length c.listing.domains < fuel
          → IsSized st2
          → Start
              (then_option
                (account er cs handle c names)
                (λ a. some (record { ip = ip; port = port; cert = cert; account = a })))
              (configure er cs names tls ts p sem fuel handle self st2 (some port) w)
              fuel
              self
              st
              w
    unfolding configure
    configure-account ip port cert fuel self st w bad enough sized =
        let st2 = record st {
          server_ip = overwrite st.server_ip 0 ip;
          server_cert = overwrite st.server_cert 0 cert;
        } in
        let options =
          set_mqtt_options-account er cs handle c view keeps names fuel st2 p.connect_defaults w bad
            enough sized in
        elim (Option-cases (account er cs handle c names)) [
          | inl missing ↦
              let (rc, options', st', w', run, failed, kept) = rw missing at options in
              let no = ==ℤ_false rc os_success failed in
              rw (missing, run, no) (rc, st', w', refl, failed, kept)
          | inr (a, is_a) ↦
              let (w', run, kept) = rw is_a at options in rw (is_a, run) (w', refl, kept)
        ]

    Start-view :
        (f : Option Found) (run : Run (ℤ × CcFsm W T × Settings × W)) (fuel : ℕ) (self : CcFsm W T)
        (st : Settings) (w w' : W)
        → view w' ≡ view w
        → Start f run fuel self st w'
        → Start f run fuel self st w
    Start-view none run fuel self st w w' same (rc, st', w2, e, failed, kept) =
        (rc, st', w2, e, failed, kept ∙ same)
    Start-view (some f) run fuel self st w w' same (w2, e, kept) = (w2, e, kept ∙ same)

    -- The start of the CloudConnector reads six parameters. Where one of them has no value it ends
    -- with an error, before the TLS session: the client, the server and the message are as they were,
    -- and nothing has changed outside that the configuration service does not change. Where all of
    -- them have values, the session is set up with these: the address, the certificate and the port,
    -- and user name, password and client id as strings, with keep-alive off and no will. This needs
    -- arrays of the declared sizes and a round for each domain and one more.
    pub handle_init-found :
        (fuel : ℕ) (self : CcFsm W T) (st : Settings) (w : W)
        → AreErrors er
        → length c.listing.domains < fuel
        → IsSized st
        → Start
            (found er cs handle c names)
            (handle_init er cs names tls ts p sem fuel handle self st w)
            fuel
            self
            st
            w
    unfolding handle_init
    handle_init-found fuel self st w bad enough sized =
        let (rc1, w1, run1, answer1, kept1, size1) =
          read_into-setting er cs handle c view keeps fuel names.domain_cloudconnector
            names.server_address_name 32 st.server_ip w bad enough sized.ip in
        let (rc2, w2, run2, answer2, kept2) =
          get_config_parameter-setting er cs handle c view keeps fuel names.domain_cloudconnector
            names.server_port_name 4 w1 bad enough in
        let (rc3, w3, run3, answer3, kept3, size3) =
          read_into-setting er cs handle c view keeps fuel names.domain_cloudconnector
            names.server_ca_cert_name 4096 st.server_cert w2 bad enough sized.cert in
        elim answer1 [
          | inr (failed, missing) ↦
              let no : (rc1 ==ℤ os_success) ≡ false = ground arith in
              rw (missing, run1, missing, no) (rc1, st, w1, refl, failed, kept1)
          | inl (good1, (ip, is_ip)) ↦
              let st1 = record st { server_ip = overwrite st.server_ip 0 ip } in
              elim answer2 [
                | inr (failed, missing) ↦
                    let no : (rc2 ==ℤ os_success) ≡ false = ground arith in
                    rw (is_ip, missing, run1, is_ip, good1, run2, missing, no)
                      (rc2, st1, w2, refl, failed, kept2 ∙ kept1)
                | inl (good2, (port, is_port)) ↦ elim answer3 [
                  | inr (failed, missing) ↦
                      let no : (rc3 ==ℤ os_success) ≡ false = ground arith in
                      rw
                        (
                          is_ip, is_port, missing, run1, is_ip, good1, run2, is_port, good2, run3,
                          missing, no,
                        )
                        (rc3, st1, w3, refl, failed, kept3 ∙ kept2 ∙ kept1)
                  | inl (good3, (cert, is_cert)) ↦
                      let st2 = record st1 { server_cert = overwrite st.server_cert 0 cert } in
                      let sized' : IsSized st2 = record {
                        device_name = sized.device_name;
                        username = sized.username;
                        sas = sized.sas;
                        ip = rw is_ip at size1;
                        cert = rw is_cert at size3;
                      } in
                      rw
                        (
                          is_ip, is_port, is_cert, run1, is_ip, good1, run2, is_port, good2, run3,
                          is_cert, good3,
                        )
                        (Start-view _ _ fuel self st w w3 (kept3 ∙ kept2 ∙ kept1)
                          (configure-account ip port cert fuel self st w3 bad enough sized'))
                ]
              ]
        ]
