-- ===== src/Tls/Prompt.antt =====
-- glue_tls_mqtt_read over a TLS session that works: what the peer has sent can be read in time.
use demo_iot_app_hw.Base.{
  ℕ, zero, suc, ◌+◌, ◌-◌, ◌^◌, ◌≤◌, ◌<◌, ◌≡◌, ◌∙◌, sym, refl, ap, ◌⊎◌, inl, inr, List, [], ◌++◌,
  true, false, ◌==◌, ltb, Bool-cases, length, take, drop, drop-append_more, take-append_more,
  replicate, length-replicate, length-append, negsuc, ◌==ℤ◌, ok, arith,
}
use mathlib.Core.List.{append_assoc}
use demo_iot_app_hw.Base.Memory.{blit-append}
use demo_iot_app_hw.Platform.{mqtt_success}
use demo_iot_app_hw.Platform.Os.{os_success, OsErrors}
use demo_iot_app_hw.Platform.Tls.{TlsStack}
use demo_iot_app_hw.Tls.{as_u64, sub_u64, sub_size, add_size, get_time_ms, read_loop, tls_mqtt_read}
use demo_iot_app_hw.Tls.Clock.{IsLive, get_time_ms-clock}
use demo_iot_app_hw.Tls.Read.{read_loop-received, drop-replicate}

-- Where `n` bytes are there to be read, at most `read_rounds n w` rounds of the loop read them: each
-- round reads some of them or waits. So for writing, where `due n w` is the time at which `n` bytes have
-- been taken at the latest. For up to `size` bytes the rounds are fewer than `fuel`, and a write takes
-- at most `slack` milliseconds. The clock has been started. The two directions of the session do not
-- touch.
pub record IsPrompt {W : Type 0} (er : OsErrors) (tls : TlsStack W) (live : IsLive er tls)
    (size fuel slack : ℕ) : Type 0 where
  pub started : (w : W) → 0 < live.clock w
  pub peer-read : (n : ℕ) (w : W) → live.peer (tls.tls_read n w).2 ≡ live.peer w
  pub incoming-write :
      (bytes : List ℕ) (w : W) → live.incoming (tls.tls_write bytes w).2 ≡ live.incoming w
  pub read_rounds : ℕ → W → ℕ
  pub read_few : (n : ℕ) (w : W) → n ≤ size → read_rounds n w < fuel
  pub reads :
      (n : ℕ) (w : W)
      → 0 < n
      → n ≤ length (live.incoming w)
      → let (ret, bytes, w2) = tls.tls_read n (get_time_ms er tls w).1 in
        ((ret ≡ os_success) × (read_rounds (n - length bytes) w2 < read_rounds n w))
        ⊎ ((ret ≡ er.would_block) × (read_rounds n (tls.yield_slice w2) < read_rounds n w))
  pub write_rounds : ℕ → W → ℕ
  pub write_few : (n : ℕ) (w : W) → n ≤ size → write_rounds n w < fuel
  pub due : ℕ → W → ℕ
  pub due_soon : (n : ℕ) (w : W) → n ≤ size → due n w ≤ live.clock w + slack
  pub writes :
      (bytes : List ℕ) (w : W)
      → 0 < length bytes
      → let n = length bytes in
        let w1 = (get_time_ms er tls w).1 in
        let (ret, actual, w2) = tls.tls_write bytes w1 in
        (live.clock w1 < due n w)
        × (((ret ≡ os_success)
              × (write_rounds (n - actual) w2 < write_rounds n w)
              × (due (n - actual) w2 ≤ due n w))
            ⊎ ((ret ≡ er.would_block)
                × (write_rounds n (tls.yield_slice w2) < write_rounds n w)
                × (due n (tls.yield_slice w2) ≤ due n w)))

-- Without a timer the timeout is -1, which as a `uint64_t` is never reached.
never_late :
    (now entry : ℕ)
    → 0 < entry
    → entry ≤ now
    → now < 2 ^ 64
    → ltb (sub_u64 now entry) (as_u64 (negsuc 0)) ≡ true
never_late now entry h le b = ground arith

module _ {W : Type 0} (er : OsErrors) (tls : TlsStack W) (live : IsLive er tls)
    {size most slack : ℕ} (prompt : IsPrompt er tls live size most slack) where
  read_loop-prompt :
      (fuel : ℕ) (front : List ℕ) (entry remaining : ℕ) (w : W)
      → length front + remaining < 2 ^ 31
      → 0 < entry
      → entry ≤ live.clock w
      → remaining ≤ length (live.incoming w)
      → prompt.read_rounds remaining w < fuel
      → (w' : W) × (read_loop er tls fuel
            (front ++ replicate remaining 0)
            entry
            (negsuc 0)
            remaining
            (length front)
            w
          ≡ ok (mqtt_success, front ++ take remaining (live.incoming w), w'))
        × (live.incoming w' ≡ drop remaining (live.incoming w))
        × (live.peer w' ≡ live.peer w)
  unfolding read_loop
  read_loop-prompt zero front entry remaining w hb hp he there enough = absurd (omega arith)
  read_loop-prompt (suc fuel) front entry remaining w hb hp he there enough =
      let (now, w1) = get_time_ms er tls w in
      let (at_now, later, same_peer, same) = get_time_ms-clock er tls live w in
      elim (Bool-cases (remaining == 0)) [
        | inl done ↦
            let none_left : remaining ≡ 0 = ground arith in
            (w, rw none_left refl, rw none_left, refl)
        | inr more ↦
            let early = never_late now entry hp (omega arith) (rw at_now (live.below w1)) in
            let (ret, bytes, w2) = tls.tls_read remaining w1 in
            let on = live.clock-read remaining w1 in
            let quiet = prompt.peer-read remaining w1 ∙ same_peer in
            elim (prompt.reads remaining w (ground arith) there) [
              | inl (good, fewer) ↦
                  let (some_bytes, fits, came) = live.got remaining w1 good in
                  let success : (ret ==ℤ os_success) ≡ true = ground arith in
                  let left = remaining - length bytes in
                  let cut : sub_size remaining (length bytes) ≡ left = omega arith in
                  let wide = length-append front bytes in
                  let sum : add_size (length front) (length bytes) ≡ length (front ++ bytes) =
                    omega (arith, wide) in
                  let arrived : live.incoming w ≡ bytes ++ live.incoming w2 = sym same ∙ came in
                  let rest : left ≤ length (live.incoming w2) =
                    omega (arith, ap length arrived, length-append bytes (live.incoming w2)) in
                  let (w', run, left_over, quiet') =
                    read_loop-prompt fuel (front ++ bytes) entry left w2 (omega (arith, wide)) hp
                      (omega arith) rest (omega arith) in
                  let store =
                    blit-append front (replicate remaining 0) bytes
                      (omega (arith, length-replicate {A = ℕ} remaining 0)) in
                  let shape : front ++ (bytes ++ drop (length bytes) (replicate remaining 0))
                      ≡ (front ++ bytes) ++ replicate left 0 =
                    rw
                      (
                        drop-replicate (length bytes) remaining,
                        append_assoc front bytes (replicate left 0),
                      )
                      refl in
                  let taken : (front ++ bytes) ++ take left (live.incoming w2)
                      ≡ front ++ take remaining (live.incoming w) =
                    rw
                      (
                        arrived,
                        take-append_more remaining bytes (live.incoming w2) fits,
                        append_assoc front bytes (take left (live.incoming w2)),
                      )
                      refl in
                  (
                    w',
                    read_loop-received er tls live fuel (front ++ replicate remaining 0) entry
                          (negsuc 0) remaining (length front) w
                          ((front ++ bytes) ++ replicate left 0) left (length (front ++ bytes)) more
                          early success (store ∙ ap ok shape) cut sum
                        ∙ run
                        ∙ ap (λ b. ok (mqtt_success, b, w')) taken,
                    left_over
                        ∙ rw (arrived, drop-append_more remaining bytes (live.incoming w2) fits)
                            refl,
                    quiet' ∙ quiet,
                  )
              | inr (block, fewer) ↦
                  let retry = live.retry in
                  let bad : (ret ==ℤ os_success) ≡ false = ground arith in
                  let again : (ret ==ℤ er.would_block) ≡ true = ground arith in
                  let same' = live.got_not remaining w1 (λ e. ground arith) in
                  let (later', peer', same3) = live.resumed w2 in
                  let still : live.incoming (tls.yield_slice w2) ≡ live.incoming w =
                    same3 ∙ same' ∙ same in
                  let (w', run, left_over, quiet') =
                    read_loop-prompt fuel front entry remaining (tls.yield_slice w2) hb hp
                      (omega (arith, live.below w1, live.below w2)) (rw still there)
                      (omega arith) in
                  let run' =
                    run ∙ ap (λ t. ok (mqtt_success, front ++ take remaining t, w')) still in
                  (
                    w',
                    rw (more, early, bad, again) run',
                    left_over ∙ ap (λ t. drop remaining t) still,
                    quiet' ∙ peer' ∙ quiet,
                  )
            ]
      ]

  -- Over a TLS session that works, a read without a timeout of bytes that the peer has sent returns
  -- MQTT_SUCCESS with the first of them, within the rounds given, and leaves the others. The buffer is
  -- no longer than `size`, which is below 2 ^ 31.
  pub tls_mqtt_read-delivers :
      (fuel : ℕ) (buf : List ℕ) (w : W)
      → size < 2 ^ 31
      → most ≤ fuel
      → length buf ≤ size
      → length buf ≤ length (live.incoming w)
      → (w' : W) × (tls_mqtt_read er tls fuel buf (negsuc 0) w
          ≡ ok (mqtt_success, take (length buf) (live.incoming w), w'))
        × (live.incoming w' ≡ drop (length buf) (live.incoming w))
        × (live.peer w' ≡ live.peer w)
  unfolding tls_mqtt_read
  tls_mqtt_read-delivers fuel buf w limit enough small there =
      let (entry, w1) = get_time_ms er tls w in
      let (at_entry, later, same_peer, same) = get_time_ms-clock er tls live w in
      let running : (entry == 0) ≡ false = ground (arith, prompt.started w) in
      let there' : length buf ≤ length (live.incoming w1) = rw same there in
      let few = prompt.read_few (length buf) w1 small in
      let (w', run, left, quiet) =
        read_loop-prompt fuel [] entry (length buf) w1 (omega arith)
          (omega (arith, prompt.started w)) (omega arith) there' (omega arith) in
      (
        w',
        rw running (run ∙ ap (λ t. ok (mqtt_success, take (length buf) t, w')) same),
        left ∙ ap (λ t. drop (length buf) t) same,
        quiet ∙ same_peer,
      )
