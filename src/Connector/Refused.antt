-- ===== src/Connector/Refused.antt =====
-- handle_CC_FSM_INIT of CloudConnector.c where the TLS handshake fails.
use demo_iot_app_hw.Base.{
  ℕ, ◌≤◌, ◌<◌, ◌≡◌, ◌≢◌, refl, ◌∙◌, some, false, length, ℤ, pos, ◌==ℤ◌, ==ℤ_false, ok,
}
use demo_iot_app_hw.Config.Names.{c_string}
use demo_iot_app_hw.Config.Setting.{Contents, KeepsView}
use demo_iot_app_hw.Platform.{Timers, Paho}
use demo_iot_app_hw.Platform.Os.{os_success, OsErrors, AreErrors, ConfigService}
use demo_iot_app_hw.Platform.Tls.{TlsStack}
use demo_iot_app_hw.Platform.Camkes.{Semaphore}
use demo_iot_app_hw.Tls.Socket
use demo_iot_app_hw.Tls.Opening.{IsOpening, Shakes, tls_init-opens}
use demo_iot_app_hw.Connector.State.{CcFsm}
use demo_iot_app_hw.Connector.Setup.{
  Names, Settings, u32_of, do_tls_handshake, establish, handle_init,
}
use demo_iot_app_hw.Connector.Account.{IsSized}
use demo_iot_app_hw.Connector.Options.{Found, with_found, found, handle_init-found}

module _ {W T H E D Q V : Type 0} (er : OsErrors) (cs : ConfigService W H E D Q) (handle : H)
    (contents : Contents cs handle) (view : W → V) (keeps : KeepsView cs view) (names : Names)
    (tls : TlsStack W) (ts : Timers W T) (p : Paho) (sem : Semaphore W) where
  -- Where the configuration has all six values and the network stack works, but the TLS handshake fails,
  -- the start ends without an MQTT packet: the client, the server and the message are as they were, and
  -- outside nothing has changed that the configuration service, the network stack and the handshake do
  -- not change, so the semaphore has not been posted. The result is 1, whatever code the handshake
  -- returned. The arrays have the declared sizes, and the loops get a round for each domain and one more,
  -- and those that the network stack needs.
  pub handle_init-handshake_fails :
      (f : Found) (server_port socket rounds fuel : ℕ) (code : ℤ) (self : CcFsm W T) (st : Settings)
      (w : W)
      → AreErrors er
      → length contents.listing.domains < fuel
      → IsSized st
      → found er cs handle contents names ≡ some f
      → u32_of (some f.port) ≡ ok server_port
      → IsOpening tls view socket rounds
      → rounds ≤ fuel
      → Shakes tls view code
      → code ≢ os_success
      → (w' : W) × (handle_init er cs names tls ts p sem fuel handle self st w
          ≡ ok (pos 1, self, with_found st f, w'))
        × (view w' ≡ view w)
  unfolding establish do_tls_handshake Socket.tls_handshake
  handle_init-handshake_fails f server_port socket rounds fuel code self st w bad enough sized
        has_values is_port opening enough' shakes failed =
      let start =
        handle_init-found er cs handle contents view keeps names tls ts p sem fuel self st w bad
          enough sized in
      let (w1, init, kept) = rw has_values at start in
      let st' = with_found st f in
      let (w2, run, kept') =
        tls_init-opens er tls view opening fuel (c_string st'.server_ip) st'.server_cert server_port
          w1 enough' in
      let (answer, kept'') = shakes.answer w2 in
      let refused : (code ==ℤ os_success) ≡ false = ==ℤ_false code os_success failed in
      (
        (tls.tls_handshake w2).1,
        init ∙ rw (is_port, run, answer, refused) refl,
        kept'' ∙ kept' ∙ kept,
      )
