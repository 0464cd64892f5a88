-- ===== src/Tls/Read.antt =====
-- The loop of glue_tls_mqtt_read in glue_tls_mqtt.c.
use demo_iot_app_hw.Base.{
  ℕ, zero, suc, ◌+◌, ◌-◌, ◌*◌, ◌^◌, ◌≤◌, ◌<◌, ◌≡◌, ◌∙◌, sym, refl, ap, ◌⊎◌, inl, inr, List, [],
  ◌++◌, true, false, ◌==◌, ltb, Bool-cases, length, drop, replicate, length-replicate,
  length-append, ℤ, ◌==ℤ◌, Run, ok, arith,
}
use mathlib.Core.List.{append_assoc}
use demo_iot_app_hw.Base.Memory.{blit, blit-append}
use demo_iot_app_hw.Platform.{mqtt_success, mqtt_failure, mqtt_timeout}
use demo_iot_app_hw.Platform.Os.{os_success, OsErrors}
use demo_iot_app_hw.Platform.Tls.{TlsStack}
use demo_iot_app_hw.Tls.{as_u64, sub_u64, sub_size, add_size, get_time_ms, read_loop, tls_mqtt_read}
use demo_iot_app_hw.Tls.Clock.{IsLive, IsResponsive, get_time_ms-clock, after_deadline, falls_first}

pub drop-replicate : (k n : ℕ) → drop {A = ℕ} k (replicate n 0) ≡ replicate (n - k) 0
drop-replicate zero n = let e : n - 0 ≡ n = omega arith in rw e
drop-replicate (suc k) zero = let e : 0 - suc k ≡ 0 = omega arith in rw e
drop-replicate (suc k) (suc n) =
    let e : suc n - suc k ≡ n - k = omega arith in rw e (drop-replicate k n)

module _ {W : Type 0} (er : OsErrors) (tls : TlsStack W) (live : IsLive er tls) where
  -- How the loop may end once `front` has been stored: with `more` behind it, which the peer sent,
  -- and zeros up to `size` bytes. It is a timeout only when the deadline has come.
  abbrev pub IsStored : ℕ → W → List ℕ → ℕ → Run (ℤ × List ℕ × W) → Type 0
  IsStored deadline w front size run =
      (rc : ℤ) × (w' : W) × (more : List ℕ) × (gap : ℕ) × (run
        ≡ ok (rc, front ++ (more ++ replicate gap 0), w'))
      × (live.incoming w ≡ more ++ live.incoming w')
      × (length front + length more + gap ≡ size)
      × (((rc ≡ mqtt_success) × (gap ≡ 0))
          ⊎ (((rc ≡ mqtt_timeout) × (deadline ≤ live.clock w')) ⊎ (rc ≡ mqtt_failure)))

  -- A call that ends at once, with an error and nothing more stored.
  ended :
      {deadline : ℕ} (front : List ℕ) (gap : ℕ) (rc : ℤ) (w w' : W) {run : Run (ℤ × List ℕ × W)}
      → run ≡ ok (rc, front ++ replicate gap 0, w')
      → live.incoming w' ≡ live.incoming w
      → (((rc ≡ mqtt_timeout) × (deadline ≤ live.clock w')) ⊎ (rc ≡ mqtt_failure))
      → IsStored deadline w front (length front + gap) run
  ended front gap rc w w' e same error = (rc, w', [], gap, e, sym same, omega arith, inr error)

  -- A call that goes on from a world where the peer's bytes are still to come.
  resumed :
      {deadline : ℕ} (front : List ℕ) {size size' : ℕ} (w w2 : W) {run rest : Run (ℤ × List ℕ × W)}
      → size' ≡ size
      → run ≡ rest
      → live.incoming w2 ≡ live.incoming w
      → IsStored deadline w2 front size' rest
      → IsStored deadline w front size run
  resumed front w w2 same_size e same (rc, w', more, gap, run, came, sum, end_) =
      (rc, w', more, gap, e ∙ run, sym same ∙ came, sum ∙ same_size, end_)

  -- A call that goes on once `bytes` have been stored behind `front`.
  advanced :
      {deadline : ℕ} (front bytes : List ℕ) {size size' : ℕ} (w w2 : W)
      {run rest : Run (ℤ × List ℕ × W)}
      → size' ≡ size
      → run ≡ rest
      → live.incoming w ≡ bytes ++ live.incoming w2
      → IsStored deadline w2 (front ++ bytes) size' rest
      → IsStored deadline w front size run
  advanced front bytes w w2 same_size e came (rc, w', tail, gap, run, came', sum, end_) =
      let wide = length-append front bytes in
      let behind : (front ++ bytes) ++ (tail ++ replicate gap 0)
          ≡ front ++ ((bytes ++ tail) ++ replicate gap 0) =
        rw
          (
            append_assoc front bytes (tail ++ replicate gap 0),
            append_assoc bytes tail (replicate gap 0),
          )
          refl in
      (
        rc,
        w',
        bytes ++ tail,
        gap,
        e ∙ run ∙ ap (λ b. ok (rc, b, w')) behind,
        came ∙ rw (came', append_assoc) refl,
        omega (arith, wide, length-append bytes tail, same_size),
        end_,
      )

  -- A round in which bytes come.
  pub read_loop-received :
      (fuel : ℕ) (buf : List ℕ) (entry : ℕ) (timeout_ms : ℤ) (remaining read : ℕ) (w : W)
      → let (now, w1) = get_time_ms er tls w in
        let (ret, bytes, w2) = tls.tls_read remaining w1 in
        (buf' : List ℕ) (remaining' read' : ℕ)
        → (remaining == 0) ≡ false
        → ltb (sub_u64 now entry) (as_u64 timeout_ms) ≡ true
        → (ret ==ℤ os_success) ≡ true
        → blit buf read bytes ≡ ok buf'
        → sub_size remaining (length bytes) ≡ remaining'
        → add_size read (length bytes) ≡ read'
        → read_loop er tls (suc fuel) buf entry timeout_ms remaining read w
          ≡ read_loop er tls fuel buf' entry timeout_ms remaining' read' w2
  unfolding read_loop
  read_loop-received fuel buf entry timeout_ms remaining read w buf' left read' more early good
        store cut sum =
      let (now, w1) = get_time_ms er tls w in
      let (ret, bytes, w2) = tls.tls_read remaining w1 in
      rw (more, early, good, store) refl
      ∙ ap (λ n. read_loop er tls fuel buf' entry timeout_ms n (add_size read (length bytes)) w2)
          cut
      ∙ ap (λ n. read_loop er tls fuel buf' entry timeout_ms left n w2) sum

  read_loop-IsStored :
      {most : ℕ} (responsive : IsResponsive er tls most) (fuel : ℕ) (front : List ℕ) (entry : ℕ)
      (timeout_ms : ℤ) (remaining : ℕ) (w : W)
      → length front + remaining < 2 ^ 31
      → entry ≤ live.clock w
      → remaining * suc most + responsive.waits w < fuel
      → IsStored (entry + as_u64 timeout_ms) w front (length front + remaining) (
          read_loop er tls fuel
            (front ++ replicate remaining 0)
            entry
            timeout_ms
            remaining
            (length front)
            w)
  unfolding read_loop
  read_loop-IsStored responsive zero front entry timeout_ms remaining w hb he enough =
      absurd (omega arith)
  read_loop-IsStored {most} responsive (suc fuel) front entry timeout_ms remaining w hb he enough =
      let (now, w1) = get_time_ms er tls w in
      let (at_now, later, _, same) = get_time_ms-clock er tls live w in
      elim (Bool-cases (remaining == 0)) [
        | inl done ↦ (
          mqtt_success,
          w,
          [],
          remaining,
          ground arith,
          refl,
          omega arith,
          inl (refl, ground arith),
        )
        | inr more ↦ elim (Bool-cases (ltb (sub_u64 now entry) (as_u64 timeout_ms))) [
          | inr late ↦
              let passed =
                after_deadline now entry (as_u64 timeout_ms) (omega arith)
                  (rw at_now (live.below w1)) late in
              ended front remaining mqtt_timeout w w1 (ground arith) same (inl (refl, omega arith))
          | inl early ↦
              let (ret, bytes, w2) = tls.tls_read remaining w1 in
              let on = live.clock-read remaining w1 in
              elim (Bool-cases (ret ==ℤ os_success)) [
                | inl good ↦
                    let (some_bytes, fits, came) = live.got remaining w1 (ground arith) in
                    let cut : sub_size remaining (length bytes) ≡ remaining - length bytes =
                      omega arith in
                    let wide = length-append front bytes in
                    let sum : add_size (length front) (length bytes) ≡ length (front ++ bytes) =
                      omega (arith, wide) in
                    let left = remaining - length bytes in
                    let store =
                      blit-append front (replicate remaining 0) bytes
                        (omega (arith, length-replicate {A = ℕ} remaining 0)) in
                    let shape : front ++ (bytes ++ drop (length bytes) (replicate remaining 0))
                        ≡ (front ++ bytes) ++ replicate left 0 =
                      rw
                        (
                          drop-replicate (length bytes) remaining,
                          append_assoc front bytes (replicate left 0),
                        )
                        refl in
                    let size : length (front ++ bytes) + left ≡ length front + remaining =
                      omega (arith, wide) in
                    advanced front bytes w w2 size
                      (read_loop-received fuel (front ++ replicate remaining 0) entry timeout_ms
                        remaining (length front) w ((front ++ bytes) ++ replicate left 0) left
                        (length (front ++ bytes)) more early good (store ∙ ap ok shape) cut sum)
                      (sym same ∙ came)
                      (read_loop-IsStored responsive fuel (front ++ bytes) entry timeout_ms left w2
                        (omega (arith, wide)) (omega arith)
                        (omega (
                          arith,
                          falls_first most remaining left (responsive.waits w2) (responsive.waits w)
                              (omega arith) (responsive.waits_few w2),
                        )))
                | inr bad ↦
                    let same' = live.got_not remaining w1 (λ e. ground arith) in
                    elim (Bool-cases (ret ==ℤ er.would_block)) [
                      | inl block ↦
                          let (later', _, same3) = live.resumed w2 in
                          let fewer =
                            responsive.blocked remaining w (ground arith) (ground arith) in
                          resumed front w (tls.yield_slice w2) refl
                            (rw (more, early, bad, block) refl) (same3 ∙ same' ∙ same)
                            (read_loop-IsStored responsive fuel front entry timeout_ms remaining
                              (tls.yield_slice w2) hb (omega arith) (omega arith))
                      | inr dead ↦
                          ended front remaining mqtt_failure w w2 (rw (more, early, bad, dead) refl)
                            (same' ∙ same) (inr refl)
                    ]
              ]
        ]
      ]

  -- `glue_tls_mqtt_read` ends with any timeout, also without one, where the buffer is shorter than 2 ^ 31
  -- bytes and the session keeps a read waiting for at most `most` rounds in a row: within `most + 1`
  -- rounds for each byte, and `most` more. Either reading the clock fails and the buffer is as it was,
  -- or it then holds what the peer sent next, with zeros behind that, and what it does not hold is still
  -- to come. MQTT_SUCCESS means that there are no such zeros, and MQTT_TIMEOUT comes not before the
  -- deadline.
  pub tls_mqtt_read-IsStored :
      {most : ℕ} (responsive : IsResponsive er tls most) (fuel : ℕ) (buf : List ℕ) (timeout_ms : ℤ)
      (w : W)
      → length buf < 2 ^ 31
      → length buf * suc most + most < fuel
      → (tls_mqtt_read er tls fuel buf timeout_ms w
          ≡ ok (mqtt_failure, buf, (get_time_ms er tls w).1))
        ⊎ IsStored
            ((get_time_ms er tls w).0 + as_u64 timeout_ms)
            w
            []
            (length buf)
            (tls_mqtt_read er tls fuel buf timeout_ms w)
  unfolding tls_mqtt_read
  tls_mqtt_read-IsStored responsive fuel buf timeout_ms w hb enough =
      let (entry, w1) = get_time_ms er tls w in
      let (at_entry, later, _, same) = get_time_ms-clock er tls live w in
      elim (Bool-cases (entry == 0)) [
        | inl broken ↦ inl (rw broken refl)
        | inr good ↦ inr (
            resumed [] w w1 (omega arith) (rw good refl) same (
              read_loop-IsStored responsive fuel [] entry timeout_ms (length buf) w1 (omega arith)
                (omega arith) (omega (arith, responsive.waits_few w1))))
      ]
