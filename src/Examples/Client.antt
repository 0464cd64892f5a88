-- ===== src/Examples/Client.antt =====
-- Runs of the theorems on components/CloudConnector/src/MQTT_client.c.
use demo_iot_app_hw.Base.{
  ℕ, ◌≡◌, refl, none, some, List, [], ◌∷◌, ◌++◌, replicate, ok, true, false, arith,
}
use demo_iot_app_hw.Base.Memory.{region-ok}
use demo_iot_app_hw.Platform.{ConnectData, mqtt_success, puback, connack}
use demo_iot_app_hw.Net.{call_write, left_ms, network_write, network_send_packet}
use demo_iot_app_hw.Net.Source.{Leaves}
use demo_iot_app_hw.Client.State.{MqttClient, Message}
use demo_iot_app_hw.Client.Send.{send_packet, send_serialized, send_publish}
use demo_iot_app_hw.Client.Receive.{wait_for_specific_packet, check_publish_qos}
use demo_iot_app_hw.Client.Api.{publish, connect}
use demo_iot_app_hw.Client.Ids.{draws, draws_lem}
use demo_iot_app_hw.Client.Waiting.{
  Frame, after_frame, after_frames, wait_for_specific_packet-frames,
}
use demo_iot_app_hw.Client.Publishing.{IsReady, Awaits, publish_qos1-acknowledged}
use demo_iot_app_hw.Client.Outcome.{IsConsistent, publish-IsConsistent}
use demo_iot_app_hw.Client.Session.{connect-IsReady}
use demo_iot_app_hw.Examples.Fixture.{World, world, timers, network, source, link, paho, defaults}

abbrev pub ready_client : MqttClient World ℕ
ready_client = record {
  net = network;
  sendbuf = replicate 16 0;
  sendbuf_size = 16;
  readbuf = replicate 8 0;
  readbuf_size = 8;
  send_timeout_ms = 300000;
  keep_alive_interval_ms = 0;
  next_packet_id = 1;
  is_ping_outstanding = false;
  is_connected = true;
  timer_last_send = 0;
}

pub ready_client-IsReady : IsReady ready_client
ready_client-IsReady = record {
  connected = refl;
  no_keep_alive = refl;
  size = refl;
  limit = omega arith;
  id_low = omega arith;
  id_high = omega arith;
}

-- A PINGRESP, which is skipped, and a PUBACK.
abbrev pub ping_frame : Frame
ping_frame = record { header = 208; body = [] }

abbrev pub puback_frame : Frame
puback_frame = record { header = 64; body = 0 ∷ 2 ∷ [] }

pub puback_frame-Awaits : Awaits paho 8 puback (ping_frame ∷ []) puback_frame
puback_frame-Awaits = record {
  others = (
    (record { small = omega arith; fits = omega arith; encoded = refl }, (λ e. omega arith)),
    tt,
  );
  readable = record { small = omega arith; fits = omega arith; encoded = refl };
  kind = refl;
}

abbrev stream : List ℕ
stream = 208 ∷ 0 ∷ 64 ∷ 2 ∷ 0 ∷ 2 ∷ 208 ∷ []

wait_for_specific_packet-frames_example :
    (w' : World) × (wait_for_specific_packet timers paho 2 ready_client puback none
        (world stream [])
      ≡ ok (
        mqtt_success,
        after_frame paho (after_frames paho ready_client (ping_frame ∷ [])) puback_frame,
        w',
      ))
    × Leaves source (world stream []) w' (208 ∷ [])
wait_for_specific_packet-frames_example =
    wait_for_specific_packet-frames paho (ping_frame ∷ []) 2 ready_client source puback_frame puback
      (208 ∷ []) (world stream []) (omega arith) refl refl (omega arith) puback_frame-Awaits.others
      puback_frame-Awaits.readable refl refl

-- The message 42 under the topic "t".
abbrev pub message : Message
message = record { qos = 1; retained = 0; dup = 0; id = 0; payload = 42 ∷ [] }

abbrev pub publish_packet : List ℕ
publish_packet = 50 ∷ 6 ∷ 0 ∷ 1 ∷ 116 ∷ 0 ∷ 2 ∷ 42 ∷ []

abbrev sent : MqttClient World ℕ
sent = record ready_client { next_packet_id = 2; sendbuf = publish_packet ++ replicate 8 0 }

publish_qos1-acknowledged_example :
    (w' : World) × (publish timers paho 2 ready_client (116 ∷ []) message none (world stream [])
      ≡ ok (
        mqtt_success,
        record message { id = 2 },
        after_frame paho (after_frames paho sent (ping_frame ∷ [])) puback_frame,
        w',
      ))
    × (w'.stream ≡ 208 ∷ [])
    × (w'.log ≡ publish_packet)
publish_qos1-acknowledged_example =
    publish_qos1-acknowledged timers paho 2 ready_client link (116 ∷ []) message (ping_frame ∷ [])
      puback_frame (208 ∷ []) (record { packet_id = 2; dup = 0; type = 4 }) 8
      (publish_packet ++ replicate 8 0) (world stream []) (omega arith) ready_client-IsReady refl
      refl (omega arith) (omega arith) (omega arith) puback_frame-Awaits refl refl refl

abbrev new_client : MqttClient World ℕ
new_client = record ready_client { is_connected = false }

abbrev options : ConnectData
options = record defaults { keep_alive_interval = 0; client_id = 105 ∷ [] }

abbrev connect_packet : List ℕ
connect_packet = 16 ∷ 3 ∷ 0 ∷ 1 ∷ 105 ∷ []

-- The broker refuses the connection with the return code 5.
abbrev connack_frame : Frame
connack_frame = record { header = 32; body = 0 ∷ 5 ∷ [] }

abbrev refused : World
refused = world (32 ∷ 2 ∷ 0 ∷ 5 ∷ []) []

connack_frame-Awaits : Awaits paho 8 connack [] connack_frame
connack_frame-Awaits = record {
  others = tt;
  readable = record { small = omega arith; fits = omega arith; encoded = refl };
  kind = refl;
}

connect-IsReady_example :
    (client : MqttClient World ℕ) × (w' : World) × (connect timers paho 1 new_client
        (some options)
        none
        refused
      ≡ ok (mqtt_success, some (record { rc = 5; session_present = 0 }), client, w'))
    × IsReady client
    × (client.next_packet_id ≡ 1)
    × (w'.stream ≡ [])
    × (w'.log ≡ connect_packet)
connect-IsReady_example =
    connect-IsReady timers paho 1 new_client link options [] connack_frame []
      (record { rc = 5; session_present = 0 }) 5 (connect_packet ++ replicate 11 0) refused
      (omega arith) refl refl refl (omega arith) (omega arith) (omega arith) refl (omega arith)
      (omega arith) (omega arith) connack_frame-Awaits refl refl

-- A message of QoS 0 needs no answer.
abbrev plain : Message
plain = record { qos = 0; retained = 0; dup = 0; id = 0; payload = 42 ∷ [] }

abbrev plain_packet : List ℕ
plain_packet = 48 ∷ 6 ∷ 0 ∷ 1 ∷ 116 ∷ 0 ∷ 0 ∷ 42 ∷ []

abbrev after_plain : MqttClient World ℕ
after_plain = record ready_client { sendbuf = plain_packet ++ replicate 8 0 }

plain-run :
    publish timers paho 1 ready_client (116 ∷ []) plain none (world [] [])
    ≡ ok (mqtt_success, plain, after_plain, record (world [] []) { log = plain_packet })
unfolding publish send_publish send_serialized send_packet network_send_packet network_write
    call_write left_ms check_publish_qos
plain-run = rw (region-ok after_plain.sendbuf 0 8 (omega arith)) refl

publish-IsConsistent_example :
    IsConsistent mqtt_success after_plain
    × (after_plain.timer_last_send ≡ ready_client.timer_last_send)
publish-IsConsistent_example =
    publish-IsConsistent timers paho 1 ready_client after_plain (116 ∷ []) plain plain none
      mqtt_success (world [] []) (record (world [] []) { log = plain_packet }) plain-run

draws_lem_example :
    draws 3 (record ready_client { next_packet_id = 65534 })
    ≡ ok (65535 ∷ 1 ∷ 2 ∷ [], record ready_client { next_packet_id = 2 })
draws_lem_example =
    draws_lem 3 (record ready_client { next_packet_id = 65534 }) (omega arith) (omega arith)
