-- ===== src/Sensor/Configured.antt =====
-- `run` of SensorTemp.c with the values of the configuration service, up to the packet that
-- cloudConnector_rpc_write of CloudConnector.c finds in the dataport.
use demo_iot_app_hw.Base.{
  ℕ, ◌+◌, ◌*◌, ◌≡◌, ◌<◌, ◌≤◌, refl, ◌∙◌, ap, none, some, List, ◌∷◌, ◌++◌, All, length, take, drop,
  replicate, pos, ok, arith,
}
use demo_iot_app_hw.Config.Setting.{Contents, KeepsView}
use demo_iot_app_hw.Platform.{Paho, Publish, PublishStore, publish}
use demo_iot_app_hw.Platform.Packets.{store_qos}
use demo_iot_app_hw.Platform.Os.{os_success, OsErrors, AreErrors, ConfigService}
use demo_iot_app_hw.Platform.Camkes.{Semaphore}
use demo_iot_app_hw.Platform.Sensing.{Sensing}
use demo_iot_app_hw.Net.{read_header}
use demo_iot_app_hw.Client.State.{Message}
use demo_iot_app_hw.Connector.State.{CcFsm}
use demo_iot_app_hw.Connector.Message.{stores}
use demo_iot_app_hw.Connector.Process.{IsOther}
use demo_iot_app_hw.Connector.Calls.{HasInput}
use demo_iot_app_hw.Connector.Forward.{Carries}
use demo_iot_app_hw.Sensor.{SensorNames, sec_to_sleep, sensor_run}
use demo_iot_app_hw.Sensor.Values.{sensor_publish, HasValues, sensor_run-send_rounds}
use demo_iot_app_hw.Sensor.Sending.{IsPort, send_rounds-delivers}

-- Paho reads back what it has written: from a buffer that begins with the packet, the deserializer
-- stores the members of the message; the DUP flag, if it does, before the QoS.
pub record IsReadBack (p : Paho) (m : Publish) (before after : List PublishStore) : Type 0 where
  pub kind :
      (buf : List ℕ) (size len : ℕ) (out old : List ℕ)
      → p.serialize_publish buf size m ≡ (pos len, out)
      → len ≤ 1024
      → read_header p (take 1024 (take len out ++ old)) ≡ publish
  pub parses :
      (buf : List ℕ) (size len : ℕ) (out old : List ℕ)
      → p.serialize_publish buf size m ≡ (pos len, out)
      → len ≤ 1024
      → 1024 ≤ length (take len out ++ old)
      → p.deserialize_publish (take 1024 (take len out ++ old)) 1024
        ≡ (pos 1, before ++ (store_qos m.qos ∷ after))
  pub others : All IsOther after
  pub topic :
      (msg : Message)
      → (stores (msg, none) (before ++ (store_qos m.qos ∷ after))).1 ≡ some m.topic_name
  pub retained :
      (msg : Message)
      → (stores (msg, none) (before ++ (store_qos m.qos ∷ after))).0.retained ≡ m.retained
  pub payload :
      (msg : Message)
      → (stores (msg, none) (before ++ (store_qos m.qos ∷ after))).0.payload ≡ m.payload

-- What the dataport holds, and what it held at the calls so far.
abbrev pub port_view : {W : Type 0} (io : Sensing W) → IsPort io → W → List ℕ × List (List ℕ)
port_view io law w = (law.port w, law.calls w)

port_view-periodic :
    {W : Type 0} (io : Sensing W) (law : IsPort io) (id ns : ℕ) (w : W)
    → port_view io law (io.device.periodic id ns w).1 ≡ port_view io law w
port_view-periodic io law id ns w = rw (law.port-periodic id ns w, law.calls-periodic id ns w) refl

module _ {W H E D Q : Type 0} (er : OsErrors) (cs : ConfigService W H E D Q) (handle : H)
    (c : Contents cs handle) (names : SensorNames) (p : Paho) (io : Sensing W) (law : IsPort io)
    (keeps : KeepsView cs (port_view io law)) where
  -- With both values and a packet that fits, each round hands over the packet.
  sensor_run-sends :
      (fuel rounds len : ℕ) (payload topic serialized_msg said about more more' out : List ℕ)
      (w : W)
      → AreErrors er
      → length c.listing.domains < fuel
      → length payload ≡ 128
      → length topic ≡ 128
      → (cs.create_handle_remote w).0 ≡ os_success
      → (cs.create_handle_remote w).1 ≡ handle
      → (io.device.periodic 1 (1000000000 * sec_to_sleep) (cs.create_handle_remote w).2).0 ≡ pos 0
      → HasValues er cs handle c names said about more more'
      → p.serialize_publish serialized_msg 320 (sensor_publish about said) ≡ (pos len, out)
      → len ≤ length out
      → len ≤ io.device.port_size
      → (w' : W) × (sensor_run er cs names p io fuel rounds payload topic serialized_msg w
          ≡ ok (none, w'))
        × (law.calls w' ≡ law.calls w ++ replicate rounds (take len out ++ drop len (law.port w)))
  sensor_run-sends fuel rounds len payload topic serialized_msg said about more more' out w bad
        enough size size' made same started has ser fits room =
      let (w3, run, kept) =
        sensor_run-send_rounds er cs handle c names p io (port_view io law) keeps
          (port_view-periodic io law) fuel rounds (pos len) payload topic serialized_msg said about
          more more' out w bad enough size size' made same started has ser in
      let (w4, run4, log4) = send_rounds-delivers io law rounds len out w3 fits room in
      let port : law.port w3 ≡ law.port w = ap (λ v. v.0) kept in
      let calls : law.calls w3 ≡ law.calls w = ap (λ v. v.1) kept in
      (w4, run ∙ rw run4 refl, log4 ∙ rw (port, calls) refl)

  -- From the configuration to the CloudConnector: with a payload and a topic in the configuration, both
  -- with a terminator, the sensor never returns, and at each of its calls the dataport holds a packet
  -- that the CloudConnector takes: a PUBLISH with that topic and that payload. The packet fits into the
  -- arrays and the dataport, Paho reads back what it writes, and the CloudConnector has room for the
  -- topic and the payload; the remote calls return.
  pub sensor_run-Carries :
      {X T : Type 0} (sem : Semaphore X) (self : CcFsm X T) (x : X)
      (before after : List PublishStore) (fuel rounds len : ℕ)
      (payload topic serialized_msg said about more more' out : List ℕ) (w : W)
      → AreErrors er
      → length c.listing.domains < fuel
      → length payload ≡ 128
      → length topic ≡ 128
      → (cs.create_handle_remote w).0 ≡ os_success
      → (cs.create_handle_remote w).1 ≡ handle
      → (io.device.periodic 1 (1000000000 * sec_to_sleep) (cs.create_handle_remote w).2).0 ≡ pos 0
      → HasValues er cs handle c names said about more more'
      → p.serialize_publish serialized_msg 320 (sensor_publish about said) ≡ (pos len, out)
      → len ≤ length out
      → len ≤ io.device.port_size
      → len ≤ 1024
      → IsReadBack p (sensor_publish about said) before after
      → sem.sensor_port x ≡ take len out ++ drop len (law.port w)
      → HasInput sem self x
      → length about + (1 + length said) ≤ length self.buffer
      → (w' : W) × (sensor_run er cs names p io fuel rounds payload topic serialized_msg w
          ≡ ok (none, w'))
        × (law.calls w' ≡ law.calls w ++ replicate rounds (sem.sensor_port x))
        × Carries p sem self x before 1 after about
  sensor_run-Carries sem self x before after fuel rounds len payload topic serialized_msg said about
        more more' out w bad enough size size' made same started has ser fits room short back held
        input wide =
      let (w', run, log) =
        sensor_run-sends fuel rounds len payload topic serialized_msg said about more more' out w
          bad enough size size' made same started has ser fits room in
      let old = drop len (law.port w) in
      (
        w',
        run,
        rw held log,
        record {
          input = input;
          kind = rw held (back.kind serialized_msg 320 len out old ser short);
          parses =
              rw held (back.parses serialized_msg 320 len out old ser short (rw held at input.1));
          has_topic = back.topic self.msg;
          small = omega arith;
          others = back.others;
          text = has.is';
          fits = rw (back.payload self.msg) wide;
        },
      )
