-- ===== src/System/Forwarding.antt =====
-- From the configuration of the sensor to the cloud: `run` of SensorTemp.c with cloudConnector_rpc_write
-- behind its remote calls.
use demo_iot_app_hw.Base.{
  All, ℕ, ◌+◌, ◌*◌, ◌≤◌, ◌<◌, ◌≡◌, refl, ◌∙◌, ap, none, List, [], ◌∷◌, ◌++◌, length, length-take,
  take, drop, pos, ok, ◌>>=◌, arith,
}
use mathlib.Core.List.{append_assoc, append-nil}
use demo_iot_app_hw.Config.Setting.{Contents, KeepsView}
use demo_iot_app_hw.Platform.{Timers, Paho, PublishStore}
use demo_iot_app_hw.Platform.Packets.{store_qos}
use demo_iot_app_hw.Platform.Os.{os_success, OsErrors, AreErrors, ConfigService}
use demo_iot_app_hw.Platform.Camkes.{Semaphore, ManagedBuffer, IsManaged}
use demo_iot_app_hw.Platform.Sensing.{Device}
use demo_iot_app_hw.Client.Ids.{nth_id}
use demo_iot_app_hw.Client.Link.{Connection}
use demo_iot_app_hw.Client.Waiting.{frame_bytes, frames_bytes}
use demo_iot_app_hw.Connector.State.{CcFsm}
use demo_iot_app_hw.Connector.Calls.{message}
use demo_iot_app_hw.Config.Names.{IsCString}
use demo_iot_app_hw.Sensor.{SensorNames, sec_to_sleep, send_rounds, sensor_run}
use demo_iot_app_hw.Sensor.Values.{sensor_publish, HasValues, sensor_run-send_rounds}
use demo_iot_app_hw.Sensor.Configured.{IsReadBack}
use demo_iot_app_hw.System.{connected}
use demo_iot_app_hw.System.Replies.{
  Reply, replies_bytes, Answers, IsWritten, packets, IsServing, served,
}
use demo_iot_app_hw.System.Call.{IsJoined, rpc_write-served, send_rounds-round}

-- What the sensor's start leaves alone: the CloudConnector and its connection.
abbrev pub cloud_view :
    {W T : Type 0} → (W → List ℕ) → (W → List ℕ) → CcFsm W T × W → CcFsm W T × List ℕ × List ℕ
cloud_view pending written (self, w) = (self, pending w, written w)

module _ {W T M : Type 0} (ts : Timers W T) (mb : ManagedBuffer M) (sem : Semaphore W)
    (er : OsErrors) (device : Device W) (p : Paho) where
  cloud_view-periodic :
      (pending : W → List ℕ) (written : W → List ℕ)
      → IsJoined device sem pending written
      → (fuel id ns : ℕ) (s : CcFsm W T × W)
      → cloud_view pending written
          ((connected ts p mb sem er device fuel).device.periodic id ns s).1
        ≡ cloud_view pending written s
  cloud_view-periodic pending written joined fuel id ns (self, w) =
      let (kept, log) = joined.periodic id ns w in rw (kept, log) refl

module _ {W T M : Type 0} (ts : Timers W T) (p : Paho) (mb : ManagedBuffer M) (law : IsManaged mb)
    (sem : Semaphore W) (er : OsErrors) (device : Device W) (about said : List ℕ)
    (before after : List PublishStore)
    (back : IsReadBack p (sensor_publish about said) before after) (text : IsCString about) where
  -- As many rounds as the cloud has answers for.
  send_rounds-published :
      (packet : ℕ → List ℕ) (fuel : ℕ) (serialized_msg out : List ℕ) (len : ℕ) (rs : List Reply)
      (self : CcFsm W T) (l : Connection ts self.client) (w : W) (rest : List ℕ)
      → IsJoined device sem l.source.pending l.source.written
      → IsWritten p self.client.sendbuf_size about said packet
      → p.serialize_publish serialized_msg 320 (sensor_publish about said) ≡ (pos len, out)
      → len ≤ 1024
      → len ≤ length out
      → len ≤ device.port_size
      → IsServing self (length about + (1 + length said))
      → All (Answers p fuel self.client.readbuf_size) rs
      → l.source.pending w ≡ replies_bytes rs ++ rest
      → (self' : CcFsm W T) × (w' : W) × (send_rounds
            (connected ts p mb sem er device fuel)
            (length rs)
            out
            (pos len)
            (self, w)
          ≡ ok (self', w'))
        × (l.source.pending w' ≡ rest)
        × (l.source.written w'
            ≡ l.source.written w ++ packets packet self.client.next_packet_id (length rs))
  unfolding send_rounds
  send_rounds-published packet fuel serialized_msg out len [] self l w rest joined writes ser short
        fits room serving answers e =
      (self, w, refl, e, rw append-nil refl)
  send_rounds-published packet fuel serialized_msg out len (r ∷ rs) self l w rest joined writes ser
        short fits room serving (answers, others) e =
      let bytes = take len out in
      let same : length bytes ≡ len = length-take len out ∙ omega arith in
      let w1 = device.put bytes w in
      let (kept, log) = joined.put bytes w in
      let held = joined.port-put bytes w (omega arith) in
      let (rc, buf, w2, run, kept', log', serving') =
        rpc_write-served ts p mb law sem er device about said before after back text packet fuel
          self l w1 serialized_msg out (drop (length bytes) (sem.sensor_port w)) len r
          (replies_bytes rs ++ rest) joined writes ser short held serving answers
          (kept
            ∙ e
            ∙ rw
                (
                  append_assoc (frames_bytes r.skipped) (frame_bytes r.ack ++ replies_bytes rs)
                      rest,
                  append_assoc (frame_bytes r.ack) (replies_bytes rs) rest,
                )
                refl) in
      let self' =
        served p self (message sem (sem.sem_wait w1).1) (before ++ (store_qos 1 ∷ after)) about buf
          r in
      let (kept3, log3) = joined.notify_wait w2 in
      let (self4, w4, run4, kept4, log4) =
        send_rounds-published packet fuel serialized_msg out len rs self' l (device.notify_wait w2)
          rest joined writes ser short fits room serving' others (kept3 ∙ kept') in
      let id = nth_id self.client.next_packet_id 1 in
      (
        self4,
        w4,
        send_rounds-round ts p mb sem er device fuel (length rs) self w out len rc self' w2 fits
              room run
            ∙ run4,
        kept4,
        log4
            ∙ rw
                (
                  log3,
                  log',
                  log,
                  append_assoc (l.source.written w) (packet id) (packets packet id (length rs)),
                )
                refl,
      )

  -- From the configuration to the cloud, over any number of rounds: with a payload and a topic in the
  -- configuration, both with a terminator, the sensor is still sending after as many rounds as the
  -- cloud has answers for, and what has been written to the connection is one PUBLISH packet for each
  -- round, with that topic and that payload, QoS 1 and successive packet ids. The answers are read,
  -- and nothing behind them. The connection works, the client is connected with keep-alive off, each
  -- round is answered by a PUBACK behind packets that are skipped, and Paho reads back and writes what
  -- it should.
  pub sensor_run-published :
      {H E D Q : Type 0} (cs : ConfigService (CcFsm W T × W) H E D Q) (handle : H)
      (c : Contents cs handle) (names : SensorNames) (packet : ℕ → List ℕ) (fuel waits len : ℕ)
      (payload topic serialized_msg more more' out : List ℕ) (rs : List Reply) (self : CcFsm W T)
      (l : Connection ts self.client) (w : W) (rest : List ℕ)
      → AreErrors er
      → length c.listing.domains < fuel
      → length payload ≡ 128
      → length topic ≡ 128
      → (cs.create_handle_remote (self, w)).0 ≡ os_success
      → (cs.create_handle_remote (self, w)).1 ≡ handle
      → (device.periodic 1 (1000000000 * sec_to_sleep) (cs.create_handle_remote (self, w)).2.1).0
        ≡ pos 0
      → KeepsView cs (cloud_view l.source.pending l.source.written)
      → HasValues er cs handle c names said about more more'
      → IsJoined device sem l.source.pending l.source.written
      → IsWritten p self.client.sendbuf_size about said packet
      → p.serialize_publish serialized_msg 320 (sensor_publish about said) ≡ (pos len, out)
      → len ≤ 1024
      → len ≤ length out
      → len ≤ device.port_size
      → IsServing self (length about + (1 + length said))
      → All (Answers p waits self.client.readbuf_size) rs
      → l.source.pending w ≡ replies_bytes rs ++ rest
      → (self' : CcFsm W T) × (w' : W) × (sensor_run er cs names p
            (connected ts p mb sem er device waits)
            fuel
            (length rs)
            payload
            topic
            serialized_msg
            (self, w)
          ≡ ok (none, (self', w')))
        × (l.source.pending w' ≡ rest)
        × (l.source.written w'
            ≡ l.source.written w ++ packets packet self.client.next_packet_id (length rs))
  sensor_run-published cs handle c names packet fuel waits len payload topic serialized_msg more
        more' out rs self l w rest bad enough size size' made same started keeps has joined writes
        ser short fits room serving answers e =
      let view = cloud_view l.source.pending l.source.written in
      let io = connected ts p mb sem er device waits in
      let (s, run, kept) =
        sensor_run-send_rounds er cs handle c names p io view keeps
          (cloud_view-periodic ts mb sem er device p l.source.pending l.source.written joined waits)
          fuel (length rs) (pos len) payload topic serialized_msg said about more more' out
          (self, w) bad enough size size' made same started has ser in
      let still : s ≡ (self, s.1) = ap (λ v. (v.0, s.1)) kept in
      let waiting : l.source.pending s.1 ≡ l.source.pending w = ap (λ v. v.1) kept in
      let log : l.source.written s.1 ≡ l.source.written w = ap (λ v. v.2) kept in
      let (self', w', run', left, log') =
        send_rounds-published packet waits serialized_msg out len rs self l s.1 rest joined writes
          ser short fits room serving answers (waiting ∙ e) in
      (
        self',
        w',
        run
            ∙ ap (λ t. send_rounds io (length rs) out (pos len) t >>= λ w4. ok (none, w4)) still
            ∙ rw run' refl,
        left,
        log' ∙ rw log refl,
      )
