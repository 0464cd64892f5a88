-- ===== src/Net/Length.antt =====
-- The remaining length of a packet: what `MQTT_network_readAndDecodePacketLength` reads.
use demo_iot_app_hw.Base.{
  ℕ, zero, suc, ◌+◌, ◌*◌, ◌/◌, ◌%◌, ◌^◌, ◌∙◌, bit_and, bit_or, ◌≤◌, ◌<◌, ◌≡◌, refl, ap, Option,
  List, [], ◌∷◌, ◌++◌, ltb, Bool-cases, inl, inr, if◌then◌else◌, length, All, pos, ok, arith,
}
use demo_iot_app_hw.Base.Bits.{low_bits, top_bit, bit_or_disjoint}
use native.Mathlib.Nat.{div-add-mod, pow-suc}
use native.Mathlib.Numerals.{towards_suc}
use demo_iot_app_hw.Platform.{Timers, Network, mqtt_failure}
use demo_iot_app_hw.Net.{decode_loop, read_and_decode_packet_length}
use demo_iot_app_hw.Net.Source.{Source, network_read-pending, Leaves, Leaves-after, Leaves-trans}

-- The encoding of MQTT 3.1.1, section 2.2.3, in at most `k + 1` bytes: seven bits a byte, lowest
-- first, and the top bit says that more follow.
abbrev pub encoding : ℕ → ℕ → List ℕ
encoding zero v = v ∷ []
encoding (suc k) v =
    let rest = encoding k (v / 128) in if ltb v 128 then v ∷ [] else (v % 128 + 128) ∷ rest

pub length-encoding : (k v : ℕ) → (1 ≤ length (encoding k v)) × (length (encoding k v) ≤ k + 1)
length-encoding zero v = omega arith
length-encoding (suc k) v = ground (arith, length-encoding k (v / 128))

-- Bytes that say that more length bytes follow.
abbrev pub with_top_bits : List ℕ → List ℕ
with_top_bits [] = []
with_top_bits (g ∷ gs) = (g + 128) ∷ with_top_bits gs

pub shift_seven : (j : ℕ) → 2 ^ (j + 7) ≡ 128 * 2 ^ j
shift_seven j = simp towards_suc (omega arith)

split_group : (v j : ℕ) → v * 2 ^ j ≡ v % 128 * 2 ^ j + v / 128 * 2 ^ (j + 7)
split_group v j = omega (
  arith,
  ap (λ (t : ℕ). t * 2 ^ j) (div-add-mod v 128),
  ap (λ (t : ℕ). v / 128 * t) (shift_seven j),
)

pub room : (v j : ℕ) → v % 128 < 128 → v % 128 * 2 ^ j + 2 ^ j ≤ 2 ^ (j + 7)
room v j h = let p = shift_seven j in grind arith

module _ {W T : Type 0} {ts : Timers W T} {n : Network W} {timer : Option T} {limit : ℕ}
    (s : Source ts n timer limit) where
  -- One round on a last byte and on a byte with the top bit set.
  last_byte :
      (k shift len cnt b : ℕ) (w : W) (rest : List ℕ)
      → s.pending w ≡ b ∷ rest
      → b < 128
      → len < 2 ^ shift
      → len + b * 2 ^ shift < 2 ^ 32
      → decode_loop ts n (suc k) shift len cnt timer w
        ≡ ok (pos (cnt + 1), len + b * 2 ^ shift, s.after 1 w)
  unfolding decode_loop
  last_byte k shift len cnt b w rest e hb hl fits = ground (
    arith,
    network_read-pending s (0 ∷ []) w (b ∷ []) rest s.one e refl,
    low_bits b,
    top_bit b,
    bit_or_disjoint shift len b,
  )

  inner_byte :
      (k shift len cnt g : ℕ) (w : W) (rest : List ℕ)
      → s.pending w ≡ (g + 128) ∷ rest
      → g < 128
      → len < 2 ^ shift
      → len + g * 2 ^ shift < 2 ^ 32
      → decode_loop ts n (suc k) shift len cnt timer w
        ≡ decode_loop ts n k (shift + 7) (len + g * 2 ^ shift) (cnt + 1) timer (s.after 1 w)
  unfolding decode_loop
  inner_byte k shift len cnt g w rest e hb hl fits = ground (
    arith,
    network_read-pending s (0 ∷ []) w ((g + 128) ∷ []) rest s.one e refl,
    low_bits (g + 128),
    top_bit (g + 128),
    bit_or_disjoint shift len g,
  )

  -- `v` is what is still to be read; it counts from bit `shift` on.
  decode_loop-encoding :
      (k v shift len cnt : ℕ) (w : W) (rest : List ℕ)
      → v < 128 ^ suc k
      → len < 2 ^ shift
      → len + v * 2 ^ shift < 2 ^ 32
      → s.pending w ≡ encoding k v ++ rest
      → (w' : W) × (decode_loop ts n (suc k) shift len cnt timer w
          ≡ ok (pos (cnt + length (encoding k v)), len + v * 2 ^ shift, w'))
        × Leaves s w w' rest
  decode_loop-encoding zero v shift len cnt w rest hv hl fits e = (
    s.after 1 w,
    last_byte 0 shift len cnt v w rest e (omega arith) hl fits,
    Leaves-after s 1 w (v ∷ []) rest s.one e refl,
  )
  decode_loop-encoding (suc k) v shift len cnt w rest hv hl fits e = elim (Bool-cases (ltb v 128)) [
    | inl small ↦ rw small (
      s.after 1 w,
      last_byte (suc k) shift len cnt v w rest (rw small at e) (ground arith) hl fits,
      Leaves-after s 1 w (v ∷ []) rest s.one (rw small at e) refl,
    )
    | inr large ↦
        let g = v % 128 in
        let bytes : List ℕ = (g + 128) ∷ [] in
        let tail = encoding k (v / 128) ++ rest in
        let here : s.pending w ≡ (g + 128) ∷ tail = rw large at e in
        let split = split_group v shift in
        let (w', run, left) =
          decode_loop-encoding k (v / 128) (shift + 7) (len + g * 2 ^ shift) (cnt + 1) (s.after 1 w)
            rest (omega (arith, pow-suc 128 (suc k))) (omega (arith, room v shift (omega arith)))
            (omega arith) (Leaves-after s 1 w bytes tail s.one here refl).0 in
        rw large (
          w',
          ground (arith, run, split, inner_byte (suc k) shift len cnt g w tail here),
          Leaves-trans s tail rest (Leaves-after s 1 w bytes tail s.one here refl) left,
        )
  ]

  -- The length of a well-formed packet is read back, whatever follows it, and exactly the bytes
  -- that encode it are taken.
  pub read_and_decode-encoding :
      (v : ℕ) (w : W) (rest : List ℕ)
      → v < 2 ^ 28
      → s.pending w ≡ encoding 3 v ++ rest
      → (w' : W) × (read_and_decode_packet_length ts n timer w
          ≡ ok (pos (length (encoding 3 v)), v, w'))
        × Leaves s w w' rest
  unfolding read_and_decode_packet_length
  read_and_decode-encoding v w rest hv e =
      let (w', run, left) =
        decode_loop-encoding 3 v 0 0 0 w rest (omega arith) (omega arith) (omega arith) e in
      (w', ground (arith, run), left)

  -- A byte with the top bit set does not end the loop, wherever it stands.
  more_byte :
      (k shift len cnt g : ℕ) (w : W) (rest : List ℕ)
      → s.pending w ≡ (g + 128) ∷ rest
      → g < 128
      → (len' : ℕ) × (decode_loop ts n (suc k) shift len cnt timer w
          ≡ decode_loop ts n k (shift + 7) len' (cnt + 1) timer (s.after 1 w))
  unfolding decode_loop
  more_byte k shift len cnt g w rest e hg = (
    bit_or len (bit_and (g + 128) 127 * 2 ^ shift % 2 ^ 32),
    ground (
      arith,
      network_read-pending s (0 ∷ []) w ((g + 128) ∷ []) rest s.one e refl,
      top_bit (g + 128),
    ),
  )

  decode_loop_too_long :
      (gs : List ℕ) (shift len cnt : ℕ) (w : W) (rest : List ℕ)
      → All (λ g. g < 128) gs
      → s.pending w ≡ with_top_bits gs ++ rest
      → (w' : W) × (decode_loop ts n (length gs) shift len cnt timer w ≡ ok (mqtt_failure, 0, w'))
        × Leaves s w w' rest
  decode_loop_too_long [] shift len cnt w rest hs e = (w, unfold decode_loop in refl, (e, refl))
  decode_loop_too_long (g ∷ gs) shift len cnt w rest (hg, hs) e =
      let tail = with_top_bits gs ++ rest in
      let (len', step) = more_byte (length gs) shift len cnt g w tail e hg in
      let (w', run, left) =
        decode_loop_too_long gs (shift + 7) len' (cnt + 1) (s.after 1 w) rest hs
          (Leaves-after s 1 w ((g + 128) ∷ []) tail s.one e refl).0 in
      (
        w',
        step ∙ run,
        Leaves-trans s tail rest (Leaves-after s 1 w ((g + 128) ∷ []) tail s.one e refl) left,
      )

  -- Four bytes with the top bit set are refused with MQTT_FAILURE, and no fifth byte is read.
  read_and_decode_too_long :
      (gs : List ℕ) (w : W) (rest : List ℕ)
      → length gs ≡ 4
      → All (λ g. g < 128) gs
      → s.pending w ≡ with_top_bits gs ++ rest
      → (w' : W) × (read_and_decode_packet_length ts n timer w ≡ ok (mqtt_failure, 0, w'))
        × Leaves s w w' rest
  unfolding read_and_decode_packet_length
  read_and_decode_too_long gs w rest four hs e =
      let (w', run, left) = decode_loop_too_long gs 0 0 0 w rest hs e in (w', rw (← four) run, left)
