-- ===== src/Net/Source.antt =====
-- What the reading side of `MQTT_net.c` expects of a network object: bytes in order, none lost.
use demo_iot_app_hw.Base.{
  ℕ, ◌≤◌, ◌≡◌, ◌∙◌, Option, List, ◌++◌, length, take, drop, take-append, drop-append, length-append,
  ok, arith,
}
use demo_iot_app_hw.Platform.{Timers, Network, mqtt_success}
use demo_iot_app_hw.Net.{network_read}

-- `pending w` are the bytes that have yet to be read. With this timer, a read of no more than these,
-- and of at most `size`, succeeds, returns the first ones and leaves the others; `after k w` is the
-- state behind a read of `k` bytes. `written w` are the bytes that have been written so far, which
-- reading does not change.
pub record Source {W T : Type 0} (ts : Timers W T) (n : Network W) (timer : Option T) (size : ℕ)
    : Type 0 where
  pub one : 1 ≤ size
  pub pending : W → List ℕ
  pub written : W → List ℕ
  pub after : ℕ → W → W
  pub read_ok :
      (buf : List ℕ) (w : W)
      → length buf ≤ size
      → length buf ≤ length (pending w)
      → network_read ts n buf timer w
        ≡ ok (mqtt_success, take (length buf) (pending w), after (length buf) w)
  pub pending-after :
      (k : ℕ) (w : W) → k ≤ size → k ≤ length (pending w) → pending (after k w) ≡ drop k (pending w)
  pub written-after :
      (k : ℕ) (w : W) → k ≤ size → k ≤ length (pending w) → written (after k w) ≡ written w

module _ {W T : Type 0} {ts : Timers W T} {n : Network W} {timer : Option T} {size : ℕ}
    (s : Source ts n timer size) where
  pub network_read-pending :
      (buf : List ℕ) (w : W) (bytes rest : List ℕ)
      → length buf ≤ size
      → s.pending w ≡ bytes ++ rest
      → length buf ≡ length bytes
      → network_read ts n buf timer w ≡ ok (mqtt_success, bytes, s.after (length buf) w)
  network_read-pending buf w bytes rest small e len =
      let fits : length buf ≤ length (s.pending w) =
        rw e (omega (arith, length-append bytes rest)) in
      let front : take (length buf) (s.pending w) ≡ bytes = rw (e, len) (take-append bytes rest) in
      s.read_ok buf w small fits ∙ rw front

  -- From `w` to `w'` bytes were read up to `rest`, and nothing was written.
  abbrev pub Leaves : W → W → List ℕ → Type 0
  Leaves w w' rest = (s.pending w' ≡ rest) × (s.written w' ≡ s.written w)

  pub Leaves-after :
      (k : ℕ) (w : W) (bytes rest : List ℕ)
      → k ≤ size
      → s.pending w ≡ bytes ++ rest
      → k ≡ length bytes
      → Leaves w (s.after k w) rest
  Leaves-after k w bytes rest small e len =
      let fits : k ≤ length (s.pending w) = rw e (omega (arith, length-append bytes rest)) in
      (
        s.pending-after k w small fits ∙ rw (e, len) (drop-append bytes rest),
        s.written-after k w small fits,
      )

  pub Leaves-trans :
      {w w1 w2 : W} (r1 r2 : List ℕ) → Leaves w w1 r1 → Leaves w1 w2 r2 → Leaves w w2 r2
  Leaves-trans r1 r2 a b = (b.0, b.1 ∙ a.1)
