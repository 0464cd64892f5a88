-- ===== src/Net/Packet.antt =====
-- A whole packet through `MQTT_network_readPacket`.
use demo_iot_app_hw.Base.{
  ℕ, ◌+◌, ◌^◌, ◌≤◌, ◌<◌, ◌≡◌, refl, Option, List, [], ◌∷◌, ◌++◌, length, drop, take, length-append,
  drop-drop, length-drop, length-take, pos, ok, arith,
}
use demo_iot_app_hw.Base.Memory.{region-append, blit-append}
use mathlib.Core.List.{append_assoc}
use demo_iot_app_hw.Platform.{Timers, Network, Paho}
use demo_iot_app_hw.Net.{read_payload, read_packet, read_header}
use demo_iot_app_hw.Net.Source.{Source, network_read-pending, Leaves, Leaves-after, Leaves-trans}
use demo_iot_app_hw.Net.Length.{encoding, read_and_decode-encoding, length-encoding}

module _ {W T : Type 0} {ts : Timers W T} (p : Paho) {n : Network W} {timer : Option T} {limit : ℕ}
    (s : Source ts n timer limit) where
  -- The payload lands behind what the buffer already holds of the packet.
  read_payload-pending :
      (header : ℕ) (front old payload rest : List ℕ) (size offset : ℕ) (w : W)
      → offset ≡ length (header ∷ front)
      → size ≡ length (header ∷ front) + length old
      → size < 2 ^ 32
      → length payload ≤ length old
      → length payload ≤ limit
      → s.pending w ≡ payload ++ rest
      → (w' : W) × (read_payload ts p n
            ((header ∷ front) ++ old)
            size
            offset
            (length payload)
            timer
            w
          ≡ ok (
            pos (p.header_type header),
            (header ∷ front) ++ (payload ++ drop (length payload) old),
            w',
          ))
        × Leaves s w w' rest
  unfolding read_payload read_header
  read_payload-pending header front old [] rest size offset w eo es lim fits small e =
      (w, refl, (e, refl))
  read_payload-pending header front old (b ∷ bs) rest size offset w eo es lim fits small e =
      let payload : List ℕ = b ∷ bs in
      let chunk = take (length payload) old in
      let same : length chunk ≡ length payload = omega (arith, length-take (length payload) old) in
      (
        s.after (length chunk) w,
        ground (
          arith,
          region-append (header ∷ front) old (length payload) fits,
          network_read-pending s chunk w payload rest (omega arith) e same,
          blit-append (header ∷ front) old payload fits,
        ),
        Leaves-after s (length chunk) w payload rest (omega arith) e same,
      )

  -- Behind the header and the length, the buffer holds what it held before.
  behind :
      (enc payload bs : List ℕ)
      → enc ++ (payload ++ drop (length payload) (drop (length enc) bs))
        ≡ (enc ++ payload) ++ drop (length (enc ++ payload)) bs
  behind enc payload bs = rw (drop-drop, length-append enc payload, append_assoc)

  -- From a network object that delivers reads as long as the buffer, a packet that fits into the
  -- buffer is read whole: the result is its type, the buffer begins with its bytes and is unchanged
  -- behind them, and what follows the packet is left unread. The length written back into the buffer
  -- is the encoding of MQTT 3.1.1.
  pub read_packet-encoding :
      (header : ℕ) (payload rest buffer : List ℕ) (w : W)
      → length buffer < 2 ^ 32
      → length buffer ≤ limit
      → length payload < 2 ^ 28
      → p.encode (length payload) ≡ encoding 3 (length payload)
      → length (header ∷ (encoding 3 (length payload) ++ payload)) ≤ length buffer
      → s.pending w ≡ (header ∷ (encoding 3 (length payload) ++ payload)) ++ rest
      → (w' : W) × (read_packet ts p n buffer (length buffer) timer w
          ≡ ok (
            pos (p.header_type header),
            (header ∷ (encoding 3 (length payload) ++ payload))
                ++ drop (length (header ∷ (encoding 3 (length payload) ++ payload))) buffer,
            w',
          ))
        × Leaves s w w' rest
  unfolding read_packet
  read_packet-encoding header payload rest [] w hb small hp he fits e = absurd (omega arith)
  read_packet-encoding header payload rest (b ∷ bs) w hb small hp he fits e =
      let enc = encoding 3 (length payload) in
      let tail : List ℕ = enc ++ (payload ++ rest) in
      let e0 : s.pending w ≡ header ∷ tail = rw append_assoc at e in
      let room : length (enc ++ payload) ≤ length bs = omega arith in
      let sum = length-append enc payload in
      let w1 = s.after 1 w in
      let (w2, len_run, len_left) =
        read_and_decode-encoding s (length payload) w1 (payload ++ rest) hp
          (Leaves-after s 1 w (header ∷ []) tail s.one e0 refl).0 in
      let (w3, run, left) =
        read_payload-pending header enc (drop (length enc) bs) payload rest (length (b ∷ bs))
          (1 + length enc) w2 (omega arith) (omega (arith, length-drop (length enc) bs, sum)) hb
          (omega (arith, length-drop (length enc) bs, sum)) (omega (arith, sum)) len_left.0 in
      (
        w3,
        ground (
          arith,
          region-append [] (b ∷ bs) 1,
          network_read-pending s (b ∷ []) w (header ∷ []) tail s.one e0 refl,
          blit-append [] (b ∷ bs) (header ∷ []),
          len_run,
          length-encoding 3 (length payload),
          blit-append (header ∷ []) bs enc,
          sum,
          he,
          run,
          behind enc payload bs,
        ),
        Leaves-trans s (payload ++ rest) rest
            (Leaves-trans s (enc ++ (payload ++ rest)) (payload ++ rest)
              (Leaves-after s 1 w (header ∷ []) tail s.one e0 refl) len_left)
            left,
      )
