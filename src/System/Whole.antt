-- ===== src/System/Whole.antt =====
-- The CloudConnector from its start on, and the Sensor: `run` of CloudConnector.c, and then `run` of
-- SensorTemp.c, which waits for the semaphore that the first one posts.
use demo_iot_app_hw.Base.{
  All, ℕ, ◌+◌, ◌*◌, ◌≤◌, ◌<◌, ◌≡◌, refl, ◌∙◌, none, some, List, ◌++◌, length, replicate, pos, ok,
  arith,
}
use mathlib.Core.List.{append_assoc}
use demo_iot_app_hw.Config.Setting.{Contents, KeepsView}
use demo_iot_app_hw.Config.Names.{IsCString}
use demo_iot_app_hw.Platform.{Timers, Paho, PublishStore}
use demo_iot_app_hw.Platform.Os.{os_success, OsErrors, AreErrors, ConfigService}
use demo_iot_app_hw.Platform.Camkes.{Semaphore, ManagedBuffer, IsManaged}
use demo_iot_app_hw.Platform.Sensing.{Device}
use demo_iot_app_hw.Platform.Tls.{TlsStack}
use demo_iot_app_hw.Client.State
use demo_iot_app_hw.Client.Waiting.{frame_bytes, frames_bytes}
use demo_iot_app_hw.Server.{server_init}
use demo_iot_app_hw.Tls.Clock.{IsLive}
use demo_iot_app_hw.Tls.Prompt.{IsPrompt}
use demo_iot_app_hw.Tls.Wan.{IsPatient}
use demo_iot_app_hw.Tls.Opening.{IsOpening, Shakes}
use demo_iot_app_hw.Connector.State.{CcFsm}
use demo_iot_app_hw.Connector.Setup.{Names, Settings, u32_of, constructed, run}
use demo_iot_app_hw.Connector.Account.{IsSized, options_of}
use demo_iot_app_hw.Connector.Options.{Found, with_found, found}
use demo_iot_app_hw.Connector.Established.{Greeting, Greets, IsConnect, Posts, both_ways}
use demo_iot_app_hw.Sensor.{SensorNames, sec_to_sleep, sensor_run}
use demo_iot_app_hw.Sensor.Values.{sensor_publish, HasValues}
use demo_iot_app_hw.Sensor.Configured.{IsReadBack}
use demo_iot_app_hw.System.{connected}
use demo_iot_app_hw.System.Replies.{Reply, replies_bytes, Answers, IsWritten, packets}
use demo_iot_app_hw.System.Call.{IsJoined}
use demo_iot_app_hw.System.Forwarding.{cloud_view}
use demo_iot_app_hw.System.Started.{connected_state, connected_state-IsServing, run-connected}
use demo_iot_app_hw.System.OverTls.{sensor_run-over_tls}

-- The sensor gets its handle to the configuration, and its timer is started.
pub record IsStarting {W S H E D Q : Type 0} (cs : ConfigService S H E D Q) (handle : H)
    (device : Device W) : Type 0 where
  pub made : (s : S) → (cs.create_handle_remote s).0 ≡ os_success
  pub same : (s : S) → (cs.create_handle_remote s).1 ≡ handle
  pub started : (w : W) → (device.periodic 1 (1000000000 * sec_to_sleep) w).0 ≡ pos 0

module _ {W T M : Type 0} (ts : Timers W T) (p : Paho) (mb : ManagedBuffer M) (law : IsManaged mb)
    (sem : Semaphore W) (er : OsErrors) (device : Device W) (about said : List ℕ)
    (before after : List PublishStore)
    (back : IsReadBack p (sensor_publish about said) before after) (text : IsCString about) where
  -- From the two configurations to the peer of the TLS session. The CloudConnector starts and then the
  -- Sensor does: the peer is sent the CONNECT packet with the account of the configuration, and behind
  -- that one PUBLISH packet for each round of the sensor, with the topic and the payload of the
  -- configuration, QoS 1 and successive packet ids from 2 on; nothing else. Of what the peer has sent
  -- the answers to these packets are read, and nothing behind them. Both configurations have all values,
  -- those of the sensor with a terminator; the network stack, the TLS session, the timers, the
  -- semaphore, the dataport and Paho work; all packets fit into the arrays. The loops get a round for
  -- each domain and one more, for each packet up to an acknowledgement, and those that the network
  -- stack and the TLS session need.
  pub run-published :
      {H E D Q H2 E2 D2 Q2 : Type 0} (cs : ConfigService W H E D Q) (names : Names)
      (tls : TlsStack W) (live : IsLive er tls) (handle : H) (contents : Contents cs handle)
      (f : Found) (server_port socket rounds slack fuel : ℕ) (st : Settings) (g : Greeting)
      (connect_packet : List ℕ) (cs2 : ConfigService (CcFsm W T × W) H2 E2 D2 Q2) (handle2 : H2)
      (contents2 : Contents cs2 handle2) (names2 : SensorNames) (packet : ℕ → List ℕ)
      (fuel2 waits len : ℕ) (payload topic serialized_msg more more' out : List ℕ) (rs : List Reply)
      (rest : List ℕ) (w : W)
      → let view = both_ways live.incoming live.peer in
        AreErrors er
        → length contents.listing.domains < fuel
        → IsSized st
        → ((cs.create_handle_remote w).0 ≡ os_success) × ((cs.create_handle_remote w).1 ≡ handle)
        → KeepsView cs view
        → found er cs handle contents names ≡ some f
        → u32_of (some f.port) ≡ ok server_port
        → ((w0 : W) → view (ts.timer_init w0).1 ≡ view w0)
        → IsPrompt er tls live 1024 fuel slack
        → IsPatient ts live 300000 slack
        → IsOpening tls view socket rounds
        → Shakes tls view os_success
        → rounds ≤ fuel
        → Posts sem view
        → IsConnect p 1024
            (options_of names (with_found st f) p.connect_defaults)
            (replicate 1024 0)
            connect_packet
        → Greets p fuel 1024 g
        → length contents2.listing.domains < fuel2
        → length payload ≡ 128
        → length topic ≡ 128
        → IsStarting cs2 handle2 device
        → KeepsView cs2 (cloud_view live.incoming live.peer)
        → HasValues er cs2 handle2 contents2 names2 said about more more'
        → IsJoined device sem live.incoming live.peer
        → IsWritten p 1024 about said packet
        → p.serialize_publish serialized_msg 320 (sensor_publish about said) ≡ (pos len, out)
        → len ≤ 1024
        → len ≤ length out
        → len ≤ device.port_size
        → length about + (1 + length said) ≤ 1024
        → All (Answers p waits 1024) rs
        → live.incoming w
          ≡ frames_bytes g.skipped ++ (frame_bytes g.ack ++ (replies_bytes rs ++ rest))
        → (self1 : CcFsm W T) × (w1 : W) × (self2 : CcFsm W T) × (w2 : W) × (run er cs names tls ts
              p sem fuel st w
            ≡ ok (pos 0, some self1, w1))
          × (sensor_run er cs2 names2 p
                (connected ts p mb sem er device waits)
                fuel2
                (length rs)
                payload
                topic
                serialized_msg
                (self1, w1)
              ≡ ok (none, (self2, w2)))
          × (live.incoming w2 ≡ rest)
          × (live.peer w2 ≡ live.peer w ++ (connect_packet ++ packets packet 1 (length rs)))
  unfolding constructed State.init server_init
  run-published cs names tls live handle contents f server_port socket rounds slack fuel st g
        connect_packet cs2 handle2 contents2 names2 packet fuel2 waits len payload topic
        serialized_msg more more' out rs rest w bad enough sized created keeps has_values is_port
        timer prompt patient opening shakes enough' posts c greets enough2 size size' starting
        keeps2 has joined writes ser short fits room small answers e =
      let (w0, w4, w1, started, serving, left, sent) =
        run-connected er cs names tls ts p sem live handle contents f server_port socket rounds
          slack fuel st g connect_packet (replies_bytes rs ++ rest) w bad enough sized created keeps
          has_values is_port timer prompt patient opening shakes enough' posts c greets e in
      let self1 = connected_state er cs names tls ts p sem live fuel st f c.out g w0 w4 in
      let (self2, w2, run', left', sent') =
        sensor_run-over_tls ts p mb law sem er device about said before after back text cs2 handle2
          contents2 names2 packet fuel2 waits len payload topic serialized_msg more more' out rs
          self1 w1 rest tls live fuel slack prompt patient (omega arith) (omega arith) (omega arith)
          bad enough2 size size' (starting.made _) (starting.same _) (starting.started _) keeps2 has
          joined writes ser short fits room
          (connected_state-IsServing er cs names tls ts p sem live fuel
            (length about + (1 + length said)) st f g connect_packet w0 w4 c greets small)
          answers left in
      (
        self1,
        w1,
        self2,
        w2,
        started,
        run',
        left',
        sent'
            ∙ rw (sent, append_assoc (live.peer w) connect_packet (packets packet 1 (length rs)))
                refl,
      )
