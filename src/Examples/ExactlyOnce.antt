-- ===== src/Examples/ExactlyOnce.antt =====
-- A run of the theorem on publications with QoS 2.
use demo_iot_app_hw.Base.{drop, ℕ, ◌≡◌, refl, none, List, [], ◌∷◌, ◌++◌, replicate, ok, arith}
use demo_iot_app_hw.Platform.{mqtt_success, pubrec, pubcomp}
use demo_iot_app_hw.Client.State.{MqttClient, Message}
use demo_iot_app_hw.Client.Send.{with_sendbuf}
use demo_iot_app_hw.Client.Api.{publish}
use demo_iot_app_hw.Client.Waiting.{Frame}
use demo_iot_app_hw.Client.Publishing.{Awaits}
use demo_iot_app_hw.Client.ExactlyOnce.{after_round, publish_qos2-acknowledged}
use demo_iot_app_hw.Examples.Fixture.{World, world, timers, link, paho}
use demo_iot_app_hw.Examples.Client.{ready_client, ready_client-IsReady, ping_frame, message}

-- The same with QoS 2: a PINGRESP and the PUBREC, then the PUBCOMP.
abbrev careful : Message
careful = record message { qos = 2 }

abbrev pubrec_frame : Frame
pubrec_frame = record { header = 80; body = 0 ∷ 2 ∷ [] }

abbrev pubcomp_frame : Frame
pubcomp_frame = record { header = 112; body = 0 ∷ 2 ∷ [] }

pubrec_frame-Awaits : Awaits paho 8 pubrec (ping_frame ∷ []) pubrec_frame
pubrec_frame-Awaits = record {
  others = (
    (record { small = omega arith; fits = omega arith; encoded = refl }, (λ e. omega arith)),
    tt,
  );
  readable = record { small = omega arith; fits = omega arith; encoded = refl };
  kind = refl;
}

pubcomp_frame-Awaits : Awaits paho 8 pubcomp [] pubcomp_frame
pubcomp_frame-Awaits = record {
  others = tt;
  readable = record { small = omega arith; fits = omega arith; encoded = refl };
  kind = refl;
}

abbrev handshake : List ℕ
handshake = 208 ∷ 0 ∷ 80 ∷ 2 ∷ 0 ∷ 2 ∷ 112 ∷ 2 ∷ 0 ∷ 2 ∷ []

abbrev careful_packet : List ℕ
careful_packet = 52 ∷ 6 ∷ 0 ∷ 1 ∷ 116 ∷ 0 ∷ 2 ∷ 42 ∷ []

abbrev careful_sent : MqttClient World ℕ
careful_sent = record ready_client { next_packet_id = 2; sendbuf = careful_packet ++ replicate 8 0 }

abbrev release_buf : List ℕ
release_buf = 96 ∷ 2 ∷ 0 ∷ 2 ∷ drop 4 (careful_packet ++ replicate 8 0)

publish_qos2-acknowledged_example :
    (w' : World) × (publish timers paho 2 ready_client (116 ∷ []) careful none (world handshake [])
      ≡ ok (
        mqtt_success,
        record careful { id = 2 },
        after_round paho
            (with_sendbuf
              (after_round paho careful_sent (ping_frame ∷ []) pubrec_frame)
              release_buf)
            []
            pubcomp_frame,
        w',
      ))
    × (w'.stream ≡ [])
    × (w'.log ≡ careful_packet ++ (96 ∷ 2 ∷ 0 ∷ 2 ∷ []))
publish_qos2-acknowledged_example =
    publish_qos2-acknowledged timers paho 2 ready_client link (116 ∷ []) careful (ping_frame ∷ [])
      [] pubrec_frame pubcomp_frame [] (record { packet_id = 2; dup = 0; type = 5 })
      (record { packet_id = 2; dup = 0; type = 7 }) 8 4 (careful_packet ++ replicate 8 0)
      release_buf (world handshake []) (omega arith) (omega arith) ready_client-IsReady refl refl
      (omega arith) (omega arith) (omega arith) pubrec_frame-Awaits pubcomp_frame-Awaits refl refl
      refl refl (omega arith) (omega arith) (omega arith) refl refl
