-- ===== src/System/OverTls.antt =====
-- The Sensor and the CloudConnector over the TLS session of glue_tls_mqtt.c.
use demo_iot_app_hw.Base.{◌^◌, All, ℕ, ◌+◌, ◌*◌, ◌≤◌, ◌<◌, ◌≡◌, none, List, ◌++◌, length, pos, ok}
use demo_iot_app_hw.Config.Setting.{Contents, KeepsView}
use demo_iot_app_hw.Platform.{Timers, Paho, PublishStore}
use demo_iot_app_hw.Platform.Os.{os_success, OsErrors, AreErrors, ConfigService}
use demo_iot_app_hw.Platform.Camkes.{Semaphore, ManagedBuffer, IsManaged}
use demo_iot_app_hw.Platform.Sensing.{Device}
use demo_iot_app_hw.Connector.State.{CcFsm}
use demo_iot_app_hw.Config.Names.{IsCString}
use demo_iot_app_hw.Sensor.{SensorNames, sec_to_sleep, sensor_run}
use demo_iot_app_hw.Sensor.Values.{sensor_publish, HasValues}
use demo_iot_app_hw.Sensor.Configured.{IsReadBack}
use demo_iot_app_hw.System.{connected}
use demo_iot_app_hw.System.Replies.{Reply, replies_bytes, Answers, IsWritten, packets, IsServing}
use demo_iot_app_hw.System.Call.{IsJoined}
use demo_iot_app_hw.Platform.{Network}
use demo_iot_app_hw.Platform.Tls.{TlsStack}
use demo_iot_app_hw.Tls.{wan}
use demo_iot_app_hw.Tls.Clock.{IsLive}
use demo_iot_app_hw.Tls.Prompt.{IsPrompt}
use demo_iot_app_hw.Tls.Wan.{IsPatient, wan_link}
use demo_iot_app_hw.System.Forwarding.{cloud_view, sensor_run-published}

-- The state, with this network object behind the client.
abbrev pub over : {W T : Type 0} → CcFsm W T → Network W → CcFsm W T
over self net = record self { client = record self.client { net = net } }

module _ {W T M : Type 0} (ts : Timers W T) (p : Paho) (mb : ManagedBuffer M) (law : IsManaged mb)
    (sem : Semaphore W) (er : OsErrors) (device : Device W) (about said : List ℕ)
    (before after : List PublishStore)
    (back : IsReadBack p (sensor_publish about said) before after) (text : IsCString about) where
  -- The whole way, from the configuration of the sensor to the other side of the TLS session: where the
  -- client's network object is the glue code, over a TLS session that works, the peer is sent one
  -- PUBLISH packet for each round, in order and without a gap, each with the topic and the payload of
  -- the configuration, QoS 1 and the next packet id; the sensor is still sending after as many rounds as
  -- the peer has answers for, and of what the peer has sent just these answers are read. The conditions
  -- on the sensor, the client, Paho and the answers are those of the sensor over any working connection.
  -- The session keeps up with the timeout of the client, and the client's send buffer is not larger than
  -- its read buffer.
  pub sensor_run-over_tls :
      {H E D Q : Type 0} (cs : ConfigService (CcFsm W T × W) H E D Q) (handle : H)
      (c : Contents cs handle) (names : SensorNames) (packet : ℕ → List ℕ) (fuel waits len : ℕ)
      (payload topic serialized_msg more more' out : List ℕ) (rs : List Reply) (base : CcFsm W T)
      (w : W) (rest : List ℕ) (tls : TlsStack W) (live : IsLive er tls) (glue slack : ℕ)
      → IsPrompt er tls live base.client.readbuf_size glue slack
      → IsPatient ts live base.client.send_timeout_ms slack
      → 1 ≤ base.client.readbuf_size
      → base.client.readbuf_size < 2 ^ 31
      → base.client.sendbuf_size ≤ base.client.readbuf_size
      → let self = over base (wan er tls glue) in
        AreErrors er
        → length c.listing.domains < fuel
        → length payload ≡ 128
        → length topic ≡ 128
        → (cs.create_handle_remote (self, w)).0 ≡ os_success
        → (cs.create_handle_remote (self, w)).1 ≡ handle
        → (device.periodic 1 (1000000000 * sec_to_sleep) (cs.create_handle_remote (self, w)).2.1).0
          ≡ pos 0
        → KeepsView cs (cloud_view live.incoming live.peer)
        → HasValues er cs handle c names said about more more'
        → IsJoined device sem live.incoming live.peer
        → IsWritten p self.client.sendbuf_size about said packet
        → p.serialize_publish serialized_msg 320 (sensor_publish about said) ≡ (pos len, out)
        → len ≤ 1024
        → len ≤ length out
        → len ≤ device.port_size
        → IsServing self (length about + (1 + length said))
        → All (Answers p waits self.client.readbuf_size) rs
        → live.incoming w ≡ replies_bytes rs ++ rest
        → (self' : CcFsm W T) × (w' : W) × (sensor_run er cs names p
              (connected ts p mb sem er device waits)
              fuel
              (length rs)
              payload
              topic
              serialized_msg
              (self, w)
            ≡ ok (none, (self', w')))
          × (live.incoming w' ≡ rest)
          × (live.peer w' ≡ live.peer w ++ packets packet self.client.next_packet_id (length rs))
  unfolding wan_link
  sensor_run-over_tls cs handle c names packet fuel waits len payload topic serialized_msg more
        more' out rs base w rest tls live glue slack prompt patient one limit largest bad enough
        size size' made same started keeps has joined writes ser short fits room serving answers e =
      let self = over base (wan er tls glue) in
      let l = wan_link er tls ts live prompt patient limit base.client.sendbuf_size one largest in
      sensor_run-published ts p mb law sem er device about said before after back text cs handle c
        names packet fuel waits len payload topic serialized_msg more more' out rs self l w rest bad
        enough size size' made same started keeps has joined writes ser short fits room serving
        answers e
