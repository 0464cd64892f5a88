-- ===== src/Examples/Delivery.antt =====
-- A PUBLISH of the sensor, on its way to the cloud: runs of the theorems on cloudConnector_rpc_write and
-- do_process_publish.
use demo_iot_app_hw.Base.{
  ℕ, ◌<◌, ◌≤◌, ◌≡◌, ◌⊎◌, refl, List, [], ◌∷◌, ◌++◌, All, length, length-replicate, replicate, pos,
  negsuc, ok, arith,
}
use demo_iot_app_hw.Config.Names.{IsCString, c_string}
use demo_iot_app_hw.Platform.{PublishStore}
use demo_iot_app_hw.Platform.Packets.{
  store_dup, store_qos, store_retained, store_packet_id, store_topic, store_payload,
}
use demo_iot_app_hw.Platform.Os.{os_success}
use demo_iot_app_hw.Client.State.{MqttClient}
use demo_iot_app_hw.Client.Waiting.{after_frame, after_frames}
use demo_iot_app_hw.Connector.State.{CcFsm}
use demo_iot_app_hw.Connector.Message.{do_process_publish}
use demo_iot_app_hw.Connector.Copy.{with_copy}
use demo_iot_app_hw.Connector.Process.{IsOther, parsed, do_process_publish_lem}
use demo_iot_app_hw.Connector.Handlers.{cloud_connector_rpc_write}
use demo_iot_app_hw.Connector.Calls.{message}
use demo_iot_app_hw.Connector.Forward.{Carries, taken, rpc_write-forwarded}
use demo_iot_app_hw.Examples.Fixture.{World, timers, link, paho, os_errors}
use demo_iot_app_hw.Examples.Client.{
  ready_client, ready_client-IsReady, ping_frame, puback_frame, puback_frame-Awaits, publish_packet,
}
use demo_iot_app_hw.Examples.Connector.{
  semaphore, managed, managed-IsManaged, connector, holding, long_port, header_of,
}

-- The sensor publishes 42 under the topic "t", with QoS 1, packet id 7 and the DUP flag.
abbrev sensor_packet : List ℕ
sensor_packet = 58 ∷ 6 ∷ 0 ∷ 1 ∷ 116 ∷ 0 ∷ 7 ∷ 42 ∷ []

abbrev before : List PublishStore
before = store_dup 1 ∷ []

abbrev after : List PublishStore
after = store_retained 0 ∷ store_topic (116 ∷ []) ∷ store_packet_id 7 ∷ store_payload (42 ∷ []) ∷ []

sensor_packet-parses :
    (stream : List ℕ)
    → paho.deserialize_publish (message semaphore (holding stream sensor_packet)) 1024
      ≡ (pos 1, before ++ (store_qos 1 ∷ after))
sensor_packet-parses stream = refl

others : All IsOther after
others = (tt, (tt, (tt, (tt, tt))))

topic_text : IsCString (116 ∷ [])
topic_text = ((λ e. omega arith), tt)

do_process_publish_lem_example :
    ((3 ≤ 16)
      × (do_process_publish managed paho connector
            (message semaphore (holding [] sensor_packet))
            1024
          ≡ ok (pos 0, with_copy (parsed connector (before ++ (store_qos 1 ∷ after))) (116 ∷ [])))
      × (c_string (with_copy (parsed connector (before ++ (store_qos 1 ∷ after))) (116 ∷ [])).buffer
          ≡ 116 ∷ [])
      × ((parsed connector (before ++ (store_qos 1 ∷ after))).msg.qos ≡ 1))
    ⊎ ((16 < 3)
        × (self' : CcFsm World ℕ) × (do_process_publish managed paho connector
              (message semaphore (holding [] sensor_packet))
              1024
            ≡ ok (negsuc 0, self')))
do_process_publish_lem_example =
    do_process_publish_lem managed managed-IsManaged paho connector
      (message semaphore (holding [] sensor_packet)) 1024 before 1 after (116 ∷ [])
      (sensor_packet-parses []) refl (omega arith) others topic_text

carries :
    (self : CcFsm World ℕ) (stream : List ℕ)
    → length self.server.readbuf ≡ 1024
    → 3 ≤ length self.buffer
    → Carries paho semaphore self (holding stream sensor_packet) before 1 after (116 ∷ [])
carries self stream size room = record {
  input = (size, (long_port stream sensor_packet).1);
  kind = header_of stream 58 (6 ∷ 0 ∷ 1 ∷ 116 ∷ 0 ∷ 7 ∷ 42 ∷ []);
  parses = sensor_packet-parses stream;
  has_topic = refl;
  small = omega arith;
  others = others;
  text = topic_text;
  fits = room;
}

abbrev acked : List ℕ
acked = 208 ∷ 0 ∷ 64 ∷ 2 ∷ 0 ∷ 2 ∷ 208 ∷ []

abbrev last : CcFsm World ℕ
last =
    taken connector (message semaphore (holding acked sensor_packet))
      (before ++ (store_qos 1 ∷ after)) (116 ∷ [])

abbrev sent_client : MqttClient World ℕ
sent_client = record ready_client { next_packet_id = 2; sendbuf = publish_packet ++ replicate 8 0 }

rpc_write-forwarded_example :
    (w' : World) × (cloud_connector_rpc_write timers paho managed semaphore os_errors 2 connector
        (holding acked sensor_packet)
      ≡ ok (
        os_success,
        record last {
          msg = record last.msg { id = 2 };
          client = after_frame paho (after_frames paho sent_client (ping_frame ∷ [])) puback_frame;
        },
        w',
      ))
    × (w'.stream ≡ 208 ∷ [])
    × (w'.log ≡ publish_packet)
rpc_write-forwarded_example =
    rpc_write-forwarded timers paho managed managed-IsManaged semaphore os_errors 2 connector
      (holding acked sensor_packet) link before 1 after (116 ∷ []) (ping_frame ∷ []) puback_frame
      (208 ∷ []) (record { packet_id = 2; dup = 0; type = 4 }) 8 (publish_packet ++ replicate 8 0)
      (carries connector acked (length-replicate {A = ℕ} 1024 0) (omega arith)) (omega arith)
      ready_client-IsReady refl (omega arith) (omega arith) (omega arith) puback_frame-Awaits refl
      refl refl
