-- ===== src/System/Started.antt =====
-- `run` of CloudConnector.c over the TLS session of glue_tls_mqtt.c, where all of it works.
use demo_iot_app_hw.Base.{
  ℕ, ◌≤◌, ◌<◌, ◌≡◌, refl, ◌∙◌, ap, some, List, ◌++◌, length, length-replicate, replicate, pos, ok,
  ◌>>=◌, arith,
}
use demo_iot_app_hw.Platform.{Timers, Paho}
use demo_iot_app_hw.Platform.Os.{os_success, OsErrors, AreErrors, ConfigService}
use demo_iot_app_hw.Platform.Tls.{TlsStack}
use demo_iot_app_hw.Platform.Camkes.{Semaphore}
use demo_iot_app_hw.Config.Setting.{Contents, KeepsView}
use demo_iot_app_hw.Client.State
use demo_iot_app_hw.Client.Session.{established-IsReady}
use demo_iot_app_hw.Client.Waiting.{frame_bytes, frames_bytes}
use demo_iot_app_hw.Server.{server_init}
use demo_iot_app_hw.Tls.Clock.{IsLive}
use demo_iot_app_hw.Tls.Prompt.{IsPrompt}
use demo_iot_app_hw.Tls.Wan.{IsPatient, wan_link}
use demo_iot_app_hw.Tls.Opening.{IsOpening, Shakes}
use demo_iot_app_hw.Connector.State.{CcFsm}
use demo_iot_app_hw.Connector.Setup.{
  Names, Settings, u32_of, establish, handle_init, constructed, ctor, run_with, run,
}
use demo_iot_app_hw.Connector.Account.{IsSized, options_of}
use demo_iot_app_hw.Connector.Options.{Found, with_found, found, handle_init-found}
use demo_iot_app_hw.Connector.Established.{
  Greeting, Greets, IsConnect, Posts, both_ways, with_session, establish-connected,
}
use demo_iot_app_hw.System.Replies.{IsServing}

module _ {W T H E D Q : Type 0} (er : OsErrors) (cs : ConfigService W H E D Q) (names : Names)
    (tls : TlsStack W) (ts : Timers W T) (p : Paho) (sem : Semaphore W) (live : IsLive er tls) where
  -- The state that CC_FSM_ctor makes, with a connected client.
  abbrev pub connected_state : ℕ → Settings → Found → List ℕ → Greeting → W → W → CcFsm W T
  connected_state fuel st f out g w w1 =
      with_session er cs names tls ts p sem (constructed er cs names tls ts p sem fuel w).0
        (options_of names (with_found st f) p.connect_defaults) out g w1

  -- A message for the buffer can be taken then, and published.
  pub connected_state-IsServing :
      (fuel needed : ℕ) (st : Settings) (f : Found) (g : Greeting) (packet : List ℕ) (w w1 : W)
      → (c : IsConnect p 1024
          (options_of names (with_found st f) p.connect_defaults)
          (replicate 1024 0)
          packet)
      → Greets p fuel 1024 g
      → needed ≤ 1024
      → IsServing (connected_state fuel st f c.out g w w1) needed
  unfolding constructed State.init server_init
  connected_state-IsServing fuel needed st f g packet w w1 c greets fits = record {
    ready =
        established-IsReady ts p (constructed er cs names tls ts p sem fuel w).0.client
          (options_of names (with_found st f) p.connect_defaults) c.out g.skipped g.ack w1 refl
          (length-replicate {A = ℕ} 1024 0) (omega arith) (omega arith) (omega arith) greets.awaits;
    sendbuf = c.full;
    input = length-replicate {A = ℕ} 1024 0;
    room = omega (arith, length-replicate {A = ℕ} 1024 0);
  }

  -- `run` as far as it depends on what its parts return.
  run-established :
      (handle : H) (f : Found) (server_port fuel : ℕ) (st : Settings) (self' : CcFsm W T)
      (w w3 w' : W)
      → let (self, w2) = constructed er cs names tls ts p sem fuel (cs.create_handle_remote w).2 in
        let options = options_of names (with_found st f) p.connect_defaults in
        ((cs.create_handle_remote w).0 ≡ os_success) × ((cs.create_handle_remote w).1 ≡ handle)
        → handle_init er cs names tls ts p sem fuel handle self st w2 ≡ (
            u32_of (some f.port) >>= λ port.
            (establish er cs names tls ts p sem fuel self (with_found st f) port options w3
              >>= λ (rc, self2, w5). ok (rc, self2, with_found st f, w5)))
        → u32_of (some f.port) ≡ ok server_port
        → establish er cs names tls ts p sem fuel self (with_found st f) server_port options w3
          ≡ ok (os_success, self', w')
        → run er cs names tls ts p sem fuel st w ≡ ok (pos 0, some self', w')
  unfolding run run_with ctor
  run-established handle f server_port fuel st self' w w3 w' (good, same) init is_port done =
      rw (good, same, init, is_port, done) refl

  -- Where the configuration has all six values, and the network stack, the TLS session, the timers, the
  -- semaphore and Paho work, `run` of the CloudConnector returns 0 and leaves it ready for a message: a
  -- client that is connected with keep-alive off, arrays of the declared sizes and an empty buffer of
  -- 1024 bytes. The peer has been sent just the CONNECT packet, with the account of the configuration,
  -- and of what it has sent the CONNACK, packets before that and nothing behind it have been read. This
  -- needs a round for each domain and one more, for the packets up to the CONNACK, and for what the
  -- network stack and the TLS session need.
  pub run-connected :
      (handle : H) (contents : Contents cs handle) (f : Found)
      (server_port socket rounds slack fuel : ℕ) (st : Settings) (g : Greeting)
      (packet rest : List ℕ) (w : W)
      → let view = both_ways live.incoming live.peer in
        AreErrors er
        → length contents.listing.domains < fuel
        → IsSized st
        → ((cs.create_handle_remote w).0 ≡ os_success) × ((cs.create_handle_remote w).1 ≡ handle)
        → KeepsView cs view
        → found er cs handle contents names ≡ some f
        → u32_of (some f.port) ≡ ok server_port
        → ((w0 : W) → view (ts.timer_init w0).1 ≡ view w0)
        → IsPrompt er tls live 1024 fuel slack
        → IsPatient ts live 300000 slack
        → IsOpening tls view socket rounds
        → Shakes tls view os_success
        → rounds ≤ fuel
        → Posts sem view
        → (c : IsConnect p 1024
            (options_of names (with_found st f) p.connect_defaults)
            (replicate 1024 0)
            packet)
        → Greets p fuel 1024 g
        → live.incoming w ≡ frames_bytes g.skipped ++ (frame_bytes g.ack ++ rest)
        → (w1 : W) × (w2 : W) × (w' : W) × (run er cs names tls ts p sem fuel st w
            ≡ ok (pos 0, some (connected_state fuel st f c.out g w1 w2), w'))
          × IsServing (connected_state fuel st f c.out g w1 w2) 1024
          × (live.incoming w' ≡ rest)
          × (live.peer w' ≡ live.peer w ++ packet)
  unfolding constructed State.init server_init wan_link
  run-connected handle contents f server_port socket rounds slack fuel st g packet rest w bad enough
        sized (good, same) keeps has_values is_port timer prompt patient opening shakes enough'
        posts c greets e =
      let view = both_ways live.incoming live.peer in
      let w1 = (cs.create_handle_remote w).2 in
      let (self, w2) = constructed er cs names tls ts p sem fuel w1 in
      let kept : view w2 ≡ view w = timer w1 ∙ keeps.create w in
      let start =
        handle_init-found er cs handle contents view keeps names tls ts p sem fuel self st w2 bad
          enough sized in
      let (w3, init, kept') = rw has_values at start in
      let l =
        wan_link er tls ts live prompt patient (omega arith) 1024 (omega arith) (omega arith) in
      let before : view w3 ≡ view w = kept' ∙ kept in
      let (w4, w', run', left, log) =
        establish-connected er cs names tls ts p sem fuel self l socket rounds (with_found st f)
          server_port (options_of names (with_found st f) p.connect_defaults) g packet rest w3
          opening shakes posts enough' refl refl (length-replicate {A = ℕ} 1024 0) (omega arith) c
          greets (ap (λ v. v.0) before ∙ e) in
      (
        w1,
        w4,
        w',
        run-established handle f server_port fuel st (connected_state fuel st f c.out g w1 w4) w w3
            w' (good, same) init is_port run',
        connected_state-IsServing fuel 1024 st f g packet w1 w4 c greets (omega arith),
        left,
        log ∙ rw (ap (λ v. v.1) before) refl,
      )
