-- ===== src/Tls/Taken.antt =====
-- glue_tls_mqtt_write over a TLS session that works: what is written is taken in time.
use demo_iot_app_hw.Base.{
  ℕ, zero, suc, ◌+◌, ◌-◌, ◌^◌, ◌≤◌, ◌<◌, ◌≡◌, ◌∙◌, refl, ap, inl, inr, List, ◌++◌, true, false,
  ◌==◌, ltb, Bool-cases, length, take, take_all, drop, drop_all, drop-drop, take-append-drop,
  length-drop, ℤ, ◌==ℤ◌, ok, arith,
}
use mathlib.Core.List.{append_assoc, append-nil}
use demo_iot_app_hw.Base.Memory.{region-ok}
use demo_iot_app_hw.Platform.{mqtt_success}
use demo_iot_app_hw.Platform.Os.{os_success, OsErrors}
use demo_iot_app_hw.Platform.Tls.{TlsStack}
use demo_iot_app_hw.Tls.{
  as_u64, sub_u64, sub_size, add_size, get_time_ms, write_loop, tls_mqtt_write,
}
use demo_iot_app_hw.Tls.Clock.{IsLive, get_time_ms-clock}
use demo_iot_app_hw.Tls.Prompt.{IsPrompt}

in_time :
    (now entry allowed : ℕ)
    → entry ≤ now
    → now < 2 ^ 64
    → now < entry + allowed
    → ltb (sub_u64 now entry) allowed ≡ true
in_time now entry allowed le b h =
    let gone : sub_u64 now entry ≡ now - entry = omega arith in ground (arith, gone)

module _ {W : Type 0} (er : OsErrors) (tls : TlsStack W) (live : IsLive er tls)
    {size most slack : ℕ} (prompt : IsPrompt er tls live size most slack) where
  write_loop-prompt :
      (fuel : ℕ) (buf : List ℕ) (entry : ℕ) (timeout_ms : ℤ) (written : ℕ) (w : W)
      → written ≤ length buf
      → length buf < 2 ^ 31
      → entry ≤ live.clock w
      → prompt.due (length buf - written) w ≤ entry + as_u64 timeout_ms
      → prompt.write_rounds (length buf - written) w < fuel
      → (w' : W) × (write_loop er tls fuel buf entry timeout_ms (length buf - written) written w
          ≡ ok (mqtt_success, w'))
        × (live.peer w' ≡ live.peer w ++ drop written buf)
        × (live.incoming w' ≡ live.incoming w)
  unfolding write_loop
  write_loop-prompt zero buf entry timeout_ms written w hw hb he soon enough = absurd (omega arith)
  write_loop-prompt (suc fuel) buf entry timeout_ms written w hw hb he soon enough =
      let (now, w1) = get_time_ms er tls w in
      let (at_now, later, same, same_incoming) = get_time_ms-clock er tls live w in
      elim (Bool-cases ((length buf - written) == 0)) [
        | inl done ↦
            (w, ground arith, rw (drop_all written buf (ground arith), append-nil) refl, refl)
        | inr more ↦
            let left = length-drop written buf in
            let bytes = take (length buf - written) (drop written buf) in
            let whole : bytes ≡ drop written buf =
              take_all (length buf - written) (drop written buf) (omega (arith, left)) in
            let n : length bytes ≡ length buf - written = ap length whole ∙ left in
            let part = region-ok buf written (length buf - written) (omega arith) in
            let (ret, actual, w2) = tls.tls_write bytes w1 in
            let on = live.clock-write bytes w1 in
            let quiet = prompt.incoming-write bytes w1 ∙ same_incoming in
            let (before, next) = prompt.writes bytes w (ground (arith, n)) in
            let before' : live.clock w1 < prompt.due (length buf - written) w = rw n at before in
            let early =
              in_time now entry (as_u64 timeout_ms) (omega arith) (rw at_now (live.below w1))
                (omega arith) in
            elim next [
              | inl (good, fewer, due) ↦
                  let (some_bytes, fits, peer') = live.wrote bytes w1 good in
                  let success : (ret ==ℤ os_success) ≡ true = ground arith in
                  let fits' : actual ≤ length buf - written = omega (arith, n) in
                  let rest : length buf - written - actual ≡ length buf - (written + actual) =
                    omega arith in
                  let cut : sub_size (length buf - written) actual
                      ≡ length buf - (written + actual) =
                    omega arith in
                  let sum : add_size written actual ≡ written + actual = omega arith in
                  let piece : take actual bytes ++ drop (written + actual) buf ≡ drop written buf =
                    ap (λ b. take actual b ++ drop (written + actual) buf) whole
                    ∙ rw (← drop-drop actual written buf)
                        (take-append-drop actual (drop written buf)) in
                  let fewer' = rw (n, rest) at fewer in
                  let due' = rw (n, rest) at due in
                  let (w', run, sent, quiet') =
                    write_loop-prompt fuel buf entry timeout_ms (written + actual) w2 (omega arith)
                      hb (omega arith) (omega arith) (omega arith) in
                  (
                    w',
                    ground (arith, cut, sum),
                    sent
                        ∙ rw (peer', same) refl
                        ∙ append_assoc (live.peer w) (take actual bytes)
                            (drop (written + actual) buf)
                        ∙ ap (λ t. live.peer w ++ t) piece,
                    quiet' ∙ quiet,
                  )
              | inr (block, fewer, due) ↦
                  let retry = live.retry in
                  let bad : (ret ==ℤ os_success) ≡ false = ground arith in
                  let again : (ret ==ℤ er.would_block) ≡ true = ground arith in
                  let same' = live.wrote_not bytes w1 (λ e. ground arith) in
                  let (later', peer', same3) = live.resumed w2 in
                  let fewer' = rw n at fewer in
                  let due' = rw n at due in
                  let (w', run, sent, quiet') =
                    write_loop-prompt fuel buf entry timeout_ms written (tls.yield_slice w2) hw hb
                      (omega (arith, live.below w1, live.below w2)) (omega arith) (omega arith) in
                  (
                    w',
                    rw (more, early, part, bad, again) run,
                    sent ∙ rw (peer', same', same) refl,
                    quiet' ∙ same3 ∙ quiet,
                  )
            ]
      ]

  -- Over a TLS session that works, a write with a timeout of at least `slack` milliseconds returns
  -- MQTT_SUCCESS within the rounds given; the peer has been sent the whole buffer, once and in order,
  -- and nothing that it has sent is lost. The buffer is no longer than `size`, which is below 2 ^ 31.
  pub tls_mqtt_write-taken :
      (fuel : ℕ) (buf : List ℕ) (timeout_ms : ℤ) (w : W)
      → size < 2 ^ 31
      → most ≤ fuel
      → slack ≤ as_u64 timeout_ms
      → length buf ≤ size
      → (w' : W) × (tls_mqtt_write er tls fuel buf timeout_ms w ≡ ok (mqtt_success, w'))
        × (live.peer w' ≡ live.peer w ++ buf)
        × (live.incoming w' ≡ live.incoming w)
  unfolding tls_mqtt_write
  tls_mqtt_write-taken fuel buf timeout_ms w limit enough patient small =
      let (entry, w1) = get_time_ms er tls w in
      let (at_entry, later, same, same_incoming) = get_time_ms-clock er tls live w in
      let running : (entry == 0) ≡ false = ground (arith, prompt.started w) in
      let few = prompt.write_few (length buf) w1 small in
      let soon = prompt.due_soon (length buf) w1 small in
      let (w', run, sent, quiet) =
        write_loop-prompt fuel buf entry timeout_ms 0 w1 (omega arith) (omega arith) (omega arith)
          (omega arith) (omega arith) in
      let all : length buf - 0 ≡ length buf = omega arith in
      let run' = rw all at run in (w', rw running run', sent ∙ rw same refl, quiet ∙ same_incoming)
