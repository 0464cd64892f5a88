-- ===== src/Net/Safety.antt =====
-- MQTT_network_readPacket of MQTT_net.c over any network object whose reads return.
use demo_iot_app_hw.Base.{
  ℕ, zero, suc, ◌+◌, ◌-◌, ◌*◌, ◌%◌, ◌^◌, ◌≤◌, ◌<◌, ◌≡◌, refl, bit_and, bit_or, Option, List, [],
  ◌∷◌, true, false, ltb, ◌==◌, ◌⊎◌, Bool-cases, inl, inr, length, All, drop, take, get_or, ℤ, pos,
  ◌==ℤ◌, is_positive, is_negative, Run, ok, arith, length-take, length-drop,
}
use demo_iot_app_hw.Base.Memory.{region-ok, blit-ok, overwrite, length-overwrite}
use demo_iot_app_hw.Base.Bits.{low_bits, bit_or_disjoint}
use native.Mathlib.Nat.{pow-le-pow_right}
use demo_iot_app_hw.Platform.{
  Timers, Network, Paho, mqtt_success, mqtt_failure, mqtt_buffer_overflow,
}
use demo_iot_app_hw.Net.{
  left_ms, call_read, network_read, decode_loop, read_payload, read_packet, read_header,
  read_and_decode_packet_length,
}
use demo_iot_app_hw.Net.Length.{shift_seven, room}

-- What a reading function may do: it returns 0 or an error, which is negative, and leaves as many
-- bytes in the buffer as it was asked for. It need not succeed.
pub record IsReader {W : Type 0} (n : Network W) : Type 0 where
  pub returns :
      (buf : List ℕ) (timeout_ms : ℤ) (w : W)
      → (rc : ℤ) × (bytes : List ℕ) × (w' : W) × (call_read n.mqttread buf timeout_ms w
          ≡ ok (rc, bytes, w'))
        × (length bytes ≡ length buf)
        × All (λ b. b < 256) bytes
        × (is_positive rc ≡ false)

head_small : (bytes : List ℕ) → All (λ b. b < 256) bytes → get_or bytes 0 0 < 256
head_small [] h = omega arith
head_small (b ∷ bs) h = h.0

fits_shift :
    (shift len b : ℕ)
    → b < 256
    → len < 2 ^ shift
    → shift ≤ 21
    → bit_or len (bit_and b 127 * 2 ^ shift % 2 ^ 32) < 2 ^ (shift + 7)
fits_shift shift len b hb hl hs =
    let cap : 2 ^ shift ≤ 2 ^ 21 = pow-le-pow_right (omega arith) hs in
    ground (
      arith,
      low_bits b hb,
      bit_or_disjoint shift len (b % 128) hl,
      shift_seven shift,
      room b shift (omega arith),
    )

module _ {W T : Type 0} (ts : Timers W T) (p : Paho) {n : Network W} (r : IsReader n) where
  network_read_returns :
      (buf : List ℕ) (timer : Option T) (w : W)
      → (rc : ℤ) × (bytes : List ℕ) × (w' : W) × (network_read ts n buf timer w
          ≡ ok (rc, bytes, w'))
        × (length bytes ≡ length buf)
        × All (λ b. b < 256) bytes
        × (is_positive rc ≡ false)
  unfolding network_read
  network_read_returns buf timer w = let (t, w') = left_ms ts timer w in r.returns buf t w'

  decode_loop_returns :
      (k shift len cnt : ℕ) (timer : Option T) (w : W)
      → len < 2 ^ shift
      → shift + 7 * k ≡ 28
      → (rc : ℤ) × (v : ℕ) × (w' : W) × (decode_loop ts n k shift len cnt timer w ≡ ok (rc, v, w'))
        × (v < 2 ^ 28)
        × ((is_negative rc ≡ true) ⊎ (is_positive rc ≡ true))
  unfolding decode_loop
  decode_loop_returns zero shift len cnt timer w hl hs =
      (mqtt_failure, 0, w, refl, omega arith, inl refl)
  decode_loop_returns (suc k) shift len cnt timer w hl hs =
      let (rc, bytes, w1, e, same, small, bad) = network_read_returns (0 ∷ []) timer w in
      let len' = bit_or len (bit_and (get_or bytes 0 0) 127 * 2 ^ shift % 2 ^ 32) in
      let grows : len' < 2 ^ (shift + 7) =
        fits_shift shift len (get_or bytes 0 0) (head_small bytes small) hl (omega arith) in
      let cap = pow-le-pow_right {n = 2} (omega arith) {i = shift + 7} {j = 28} (omega arith) in
      elim (Bool-cases (rc ==ℤ mqtt_success)) [
        | inr wrong ↦ (rc, 0, w1, rw (e, wrong), omega arith, inl (ground arith))
        | inl good ↦ elim (Bool-cases (bit_and (get_or bytes 0 0) 128 == 0)) [
          | inl last ↦
              (pos (cnt + 1), len', w1, rw (e, good, last), omega arith, inr (ground arith))
          | inr more ↦
              let (rc', v, w2, run, small', sign) =
                decode_loop_returns k (shift + 7) len' (cnt + 1) timer w1 grows (omega arith) in
              (rc', v, w2, rw (e, good, more) run, small', sign)
        ]
      ]

  -- What a call of the packet reader may return.
  abbrev IsOutcome : List ℕ → Run (ℤ × List ℕ × W) → Type 0
  IsOutcome buffer run =
      (rc : ℤ) × (buffer' : List ℕ) × (w' : W) × (run ≡ ok (rc, buffer', w'))
      × (length buffer' ≡ length buffer)
      × ((is_negative rc ≡ true) ⊎ (rc ≡ pos (p.header_type (get_or buffer' 0 0))))

  -- Where the payload is not empty and fits, one read fills its place in the buffer.
  payload_fills :
      (buffer : List ℕ) (offset payload_len : ℕ) (timer : Option T) (w : W)
      → offset + payload_len ≤ length buffer
      → (payload_len == 0) ≡ false
      → ltb ((length buffer + 2 ^ 32 - offset) % 2 ^ 32) payload_len ≡ false
      → IsOutcome buffer (read_payload ts p n buffer (length buffer) offset payload_len timer w)
  unfolding read_payload read_header
  payload_fills buffer offset payload_len timer w room some_bytes fits =
      let old = take payload_len (drop offset buffer) in
      let (rc, bytes, w1, e, same, small, bad) = network_read_returns old timer w in
      let width : length bytes ≡ payload_len =
        omega (arith, length-take payload_len (drop offset buffer), length-drop offset buffer) in
      let there : offset + length bytes ≤ length buffer = omega arith in
      let buffer' = overwrite buffer offset bytes in
      elim (Bool-cases (rc ==ℤ mqtt_success)) [
        | inl good ↦ (
          pos (p.header_type (get_or buffer' 0 0)),
          buffer',
          w1,
          rw (
            some_bytes,
            fits,
            region-ok buffer offset payload_len room,
            e,
            blit-ok buffer offset bytes there,
            good,
          ),
          length-overwrite buffer offset bytes there,
          inr refl,
        )
        | inr wrong ↦ (
          rc,
          buffer',
          w1,
          rw (
            some_bytes,
            fits,
            region-ok buffer offset payload_len room,
            e,
            blit-ok buffer offset bytes there,
            wrong,
          ),
          length-overwrite buffer offset bytes there,
          inl (ground arith),
        )
      ]

  read_payload_returns :
      (buffer : List ℕ) (offset payload_len : ℕ) (timer : Option T) (w : W)
      → length buffer < 2 ^ 32
      → offset ≤ length buffer
      → IsOutcome buffer (read_payload ts p n buffer (length buffer) offset payload_len timer w)
  unfolding read_payload read_header
  read_payload_returns buffer offset payload_len timer w lim ho =
      elim (Bool-cases (payload_len == 0)) [
        | inl nothing ↦
            (pos (p.header_type (get_or buffer 0 0)), buffer, w, rw nothing, refl, inr refl)
        | inr some_bytes ↦
            elim (Bool-cases (ltb ((length buffer + 2 ^ 32 - offset) % 2 ^ 32) payload_len)) [
              | inl large ↦
                  (mqtt_buffer_overflow, buffer, w, rw (some_bytes, large), refl, inl refl)
              | inr fits ↦
                  payload_fills buffer offset payload_len timer w (ground arith) some_bytes fits
            ]
      ]

  -- `MQTT_network_readPacket` over any network object whose reads return, with bytes in the whole of
  -- the destination and a code that is not positive; into a buffer of at least five bytes, and where
  -- Paho encodes a length below 2 ^ 28 in at most four bytes. It returns, never accesses memory
  -- outside the buffer, and its result is a negative error code or the type in the first byte that
  -- the buffer then holds.
  pub read_packet_safe :
      (buffer : List ℕ) (timer : Option T) (w : W)
      → ((v : ℕ) → v < 2 ^ 28 → length (p.encode v) ≤ 4)
      → 5 ≤ length buffer
      → length buffer < 2 ^ 32
      → (rc : ℤ) × (buffer' : List ℕ) × (w' : W) × (read_packet ts p n buffer
            (length buffer)
            timer
            w
          ≡ ok (rc, buffer', w'))
        × (length buffer' ≡ length buffer)
        × ((is_negative rc ≡ true) ⊎ (rc ≡ pos (p.header_type (get_or buffer' 0 0))))
  unfolding read_packet read_and_decode_packet_length
  read_packet_safe buffer timer w short five lim =
      let old = take 1 (drop 0 buffer) in
      let (rc, header, w1, e, same, small, bad) = network_read_returns old timer w in
      let one : length header ≡ 1 =
        omega (arith, length-take 1 (drop 0 buffer), length-drop 0 buffer) in
      let there : 0 + length header ≤ length buffer = omega arith in
      let buffer1 = overwrite buffer 0 header in
      let kept = length-overwrite buffer 0 header there in
      let first = region-ok buffer 0 1 (omega arith) in
      let write = blit-ok buffer 0 header there in
      let (cnt, v, w2, run, limit, sign) =
        decode_loop_returns 4 0 0 0 timer w1 (omega arith) (omega arith) in
      let len_bytes = p.encode v in
      let here : 1 + length len_bytes ≤ length buffer1 = omega (arith, short v limit) in
      let buffer2 = overwrite buffer1 1 len_bytes in
      let kept' = length-overwrite buffer1 1 len_bytes here in
      elim (Bool-cases (rc ==ℤ mqtt_success)) [
        | inr wrong ↦ (rc, buffer1, w1, rw (first, e, write, wrong), kept, inl (ground arith))
        | inl good ↦ elim sign [
          | inl neg ↦ (cnt, buffer1, w2, ground arith, kept, inl neg)
          | inr more ↦
              let (rc', buffer3, w3, rest, kept3, result) =
                read_payload_returns buffer2 (1 + length len_bytes) v timer w2 (omega arith)
                  (omega arith) in
              (
                rc',
                buffer3,
                w3,
                ground (arith, blit-ok buffer1 1 len_bytes here),
                omega arith,
                result,
              )
        ]
      ]
