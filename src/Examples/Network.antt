-- ===== src/Examples/Network.antt =====
-- Runs of the theorems on components/CloudConnector/src/MQTT_net.c.
use demo_iot_app_hw.Base.{
  ℕ, zero, suc, ◌^◌, ◌<◌, ◌≤◌, ◌≡◌, ◌⊎◌, refl, none, some, List, [], ◌∷◌, All, length, get_or,
  replicate, length-replicate, ℤ, pos, is_negative, ok, true, arith,
}
use demo_iot_app_hw.Platform.{Network, mqtt_timeout}
use demo_iot_app_hw.Net.{read_packet, read_and_decode_packet_length, call_read}
use demo_iot_app_hw.Net.Source.{Leaves}
use demo_iot_app_hw.Net.Length.{length-encoding, read_and_decode-encoding}
use demo_iot_app_hw.Net.Packet.{read_packet-encoding}
use demo_iot_app_hw.Net.Safety.{IsReader, read_packet_safe}
use demo_iot_app_hw.Examples.Fixture.{World, world, timers, network, source, paho}

-- 321 is encoded as 193, 2.
read_and_decode-encoding_example :
    (w' : World) × (read_and_decode_packet_length timers network none (world (193 ∷ 2 ∷ 7 ∷ []) [])
      ≡ ok (pos 2, 321, w'))
    × Leaves source (world (193 ∷ 2 ∷ 7 ∷ []) []) w' (7 ∷ [])
read_and_decode-encoding_example =
    read_and_decode-encoding source 321 (world (193 ∷ 2 ∷ 7 ∷ []) []) (7 ∷ []) (omega arith) refl

-- A PUBACK with packet id 2, and a byte behind it.
read_packet-encoding_example :
    (w' : World) × (read_packet timers paho network
        (9 ∷ 9 ∷ 9 ∷ 9 ∷ 9 ∷ [])
        5
        none
        (world (64 ∷ 2 ∷ 0 ∷ 2 ∷ 208 ∷ []) [])
      ≡ ok (pos 4, 64 ∷ 2 ∷ 0 ∷ 2 ∷ 9 ∷ [], w'))
    × Leaves source (world (64 ∷ 2 ∷ 0 ∷ 2 ∷ 208 ∷ []) []) w' (208 ∷ [])
read_packet-encoding_example =
    read_packet-encoding paho source 64 (0 ∷ 2 ∷ []) (208 ∷ []) (9 ∷ 9 ∷ 9 ∷ 9 ∷ 9 ∷ [])
      (world (64 ∷ 2 ∷ 0 ∷ 2 ∷ 208 ∷ []) []) (omega arith) (omega arith) (omega arith) refl
      (omega arith) refl

-- A network on which every read times out and leaves zeros.
abbrev silent : Network World
silent = record {
  mqttread = some (λ buf timeout_ms w. ok (mqtt_timeout, replicate (length buf) 0, w));
  mqttwrite = none;
}

zeros_small : (n : ℕ) → All (λ b. b < 256) (replicate n 0)
zeros_small zero = tt
zeros_small (suc n) = (omega arith, zeros_small n)

silent-IsReader : IsReader silent
unfolding call_read
silent-IsReader = record {
  returns = λ buf timeout_ms w. (
    mqtt_timeout,
    replicate (length buf) 0,
    w,
    refl,
    length-replicate (length buf) 0,
    zeros_small (length buf),
    refl,
  );
}

encode_short : (v : ℕ) → v < 2 ^ 28 → length (paho.encode v) ≤ 4
encode_short v h = omega (arith, (length-encoding 3 v).1)

read_packet_safe_example :
    (rc : ℤ) × (buffer' : List ℕ) × (w' : World) × (read_packet timers paho silent
        (9 ∷ 9 ∷ 9 ∷ 9 ∷ 9 ∷ [])
        5
        none
        (world [] [])
      ≡ ok (rc, buffer', w'))
    × (length buffer' ≡ 5)
    × ((is_negative rc ≡ true) ⊎ (rc ≡ pos (paho.header_type (get_or buffer' 0 0))))
read_packet_safe_example =
    read_packet_safe timers paho silent-IsReader (9 ∷ 9 ∷ 9 ∷ 9 ∷ 9 ∷ []) none (world [] [])
      encode_short (omega arith) (omega arith)
