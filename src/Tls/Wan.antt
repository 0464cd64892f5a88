-- ===== src/Tls/Wan.antt =====
-- The network object of the CloudConnector's client, which is glue_tls_mqtt.c, as a working connection.
use demo_iot_app_hw.Base.{
  ℕ, ◌-◌, ◌^◌, ◌≤◌, ◌<◌, ◌≡◌, ◌∙◌, sym, refl, ap, none, List, ◌++◌, ◌==◌, false, length,
  length-replicate, take, drop, replicate, ℤ, Run, ok, fault, out_of_fuel, arith,
}
use demo_iot_app_hw.Platform.{Timers, mqtt_success}
use demo_iot_app_hw.Platform.Os.{OsErrors}
use demo_iot_app_hw.Platform.Tls.{TlsStack}
use demo_iot_app_hw.Net.{network_read, network_write}
use demo_iot_app_hw.Net.Source.{Source}
use demo_iot_app_hw.Client.Link.{Link, timed_write}
use demo_iot_app_hw.Tls.{as_u64, get_time_ms, tls_mqtt_read, wan}
use demo_iot_app_hw.Tls.Clock.{IsLive, get_time_ms-clock}
use demo_iot_app_hw.Tls.Prompt.{IsPrompt, tls_mqtt_read-delivers}
use demo_iot_app_hw.Tls.Taken.{tls_mqtt_write-taken}

-- The timer that `sendPacket` makes leaves a write at least `slack` milliseconds; no timer touches the
-- session.
pub record IsPatient {W T : Type 0} {er : OsErrors} {tls : TlsStack W} (ts : Timers W T)
    (live : IsLive er tls) (send_timeout_ms slack : ℕ) : Type 0 where
  pub limited : (send_timeout_ms == 2 ^ 32 - 1) ≡ false
  pub enough :
      (w : W)
      → let (my_timer, w1) = ts.timer_init w in
        let (timer, w2) = ts.timer_countdown_ms my_timer send_timeout_ms w1 in
        let (ms, w3) = ts.timer_left_ms timer w2 in
        (slack ≤ as_u64 ms) × (live.incoming w3 ≡ live.incoming w) × (live.peer w3 ≡ live.peer w)
  pub incoming-timer_countdown :
      (t : T) (s : ℕ) (w : W) → live.incoming (ts.timer_countdown t s w).1 ≡ live.incoming w
  pub peer-timer_countdown :
      (t : T) (s : ℕ) (w : W) → live.peer (ts.timer_countdown t s w).1 ≡ live.peer w

-- The state in which a call returns.
abbrev after_read : {W : Type 0} → Run (ℤ × List ℕ × W) → W → W
after_read (ok (rc, buf, w')) w = w'
after_read fault w = w
after_read out_of_fuel w = w

abbrev after_write : {W : Type 0} → Run (ℤ × W) → W → W
after_write (ok (rc, w')) w = w'
after_write fault w = w
after_write out_of_fuel w = w

module _ {W T : Type 0} (er : OsErrors) (tls : TlsStack W) (ts : Timers W T) (live : IsLive er tls)
    {size fuel slack send_timeout_ms : ℕ} (prompt : IsPrompt er tls live size fuel slack)
    (patient : IsPatient ts live send_timeout_ms slack) (limit : size < 2 ^ 31) where
  wan-reads :
      (buf : List ℕ) (w : W)
      → length buf ≤ size
      → length buf ≤ length (live.incoming w)
      → (w' : W) × (network_read ts (wan er tls fuel) buf none w
          ≡ ok (mqtt_success, take (length buf) (live.incoming w), w'))
        × (live.incoming w' ≡ drop (length buf) (live.incoming w))
        × (live.peer w' ≡ live.peer w)
  unfolding network_read
  wan-reads buf w small there =
      tls_mqtt_read-delivers er tls live prompt fuel buf w limit (omega arith) small there

  -- What was in the buffer makes no difference.
  pub wan-length :
      (buf buf' : List ℕ) (w : W)
      → length buf ≡ length buf'
      → network_read ts (wan er tls fuel) buf none w ≡ network_read ts (wan er tls fuel) buf' none w
  unfolding network_read tls_mqtt_read
  wan-length buf buf' w e =
      let (entry, w1) = get_time_ms er tls w in
      let (at_entry, later, same_peer, same) = get_time_ms-clock er tls live w in
      let running : (entry == 0) ≡ false = ground (arith, prompt.started w) in rw (running, e) refl

  wan-writes :
      (bytes : List ℕ) (w : W)
      → length bytes ≤ size
      → (w' : W) × (timed_write ts (wan er tls fuel) send_timeout_ms bytes w
          ≡ ok (mqtt_success, w'))
        × (live.peer w' ≡ live.peer w ++ bytes)
        × (live.incoming w' ≡ live.incoming w)
  unfolding network_write
  wan-writes bytes w small =
      let (my_timer, w1) = ts.timer_init w in
      let (timer, w2) = ts.timer_countdown_ms my_timer send_timeout_ms w1 in
      let (ms, w3) = ts.timer_left_ms timer w2 in
      let (patience, same, same_peer) = patient.enough w in
      let (w', run, sent, kept) =
        tls_mqtt_write-taken er tls live prompt fuel bytes ms w3 limit (omega arith) patience
          small in
      (w', rw patient.limited run, sent ∙ ap (λ t. t ++ bytes) same_peer, kept ∙ same)

  pub after_k : ℕ → W → W
  after_k k w = after_read (network_read ts (wan er tls fuel) (replicate k 0) none w) w

  pub after_k_lem :
      (k : ℕ) (w : W)
      → k ≤ size
      → k ≤ length (live.incoming w)
      → (network_read ts (wan er tls fuel) (replicate k 0) none w
          ≡ ok (mqtt_success, take k (live.incoming w), after_k k w))
        × (live.incoming (after_k k w) ≡ drop k (live.incoming w))
        × (live.peer (after_k k w) ≡ live.peer w)
  unfolding after_k
  after_k_lem k w small there =
      let e = length-replicate {A = ℕ} k 0 in
      let (w', run, left, quiet) = wan-reads (replicate k 0) w (rw e small) (rw e there) in
      let here : after_k k w ≡ w' = rw run refl in
      (rw here (rw e at run), rw here (rw e at left), rw here quiet)

  pub sent_to : List ℕ → W → W
  sent_to bytes w = after_write (timed_write ts (wan er tls fuel) send_timeout_ms bytes w) w

  pub sent_to_lem :
      (bytes : List ℕ) (w : W)
      → length bytes ≤ size
      → (timed_write ts (wan er tls fuel) send_timeout_ms bytes w
          ≡ ok (mqtt_success, sent_to bytes w))
        × (live.peer (sent_to bytes w) ≡ live.peer w ++ bytes)
        × (live.incoming (sent_to bytes w) ≡ live.incoming w)
  unfolding sent_to
  sent_to_lem bytes w small =
      let (w', run, sent, kept) = wan-writes bytes w small in
      let here : sent_to bytes w ≡ w' = rw run refl in (rw here run, rw here sent, rw here kept)

  wan_source : 1 ≤ size → Source ts (wan er tls fuel) none size
  wan_source one = record {
    one = one;
    pending = live.incoming;
    written = live.peer;
    after = after_k;
    read_ok = λ buf w small there.
        wan-length buf (replicate (length buf) 0) w (sym (length-replicate {A = ℕ} (length buf) 0))
        ∙ (after_k_lem (length buf) w small there).0;
    pending-after = λ k w small there. (after_k_lem k w small there).1;
    written-after = λ k w small there. (after_k_lem k w small there).2;
  }

  -- The glue code over a TLS session that works is a working connection for the MQTT client: what the
  -- peer has sent is pending, and what is written is what the peer has been sent.
  unfoldable pub wan_link :
      (largest : ℕ)
      → 1 ≤ size
      → largest ≤ size
      → Link ts (wan er tls fuel) size largest send_timeout_ms
  unfolding wan_source
  wan_link largest one h = record {
    source = wan_source one;
    sent = sent_to;
    write_ok = λ bytes w small. (sent_to_lem bytes w (omega arith)).0;
    pending-sent = λ bytes w small. (sent_to_lem bytes w (omega arith)).2;
    written-sent = λ bytes w small. (sent_to_lem bytes w (omega arith)).1;
    pending-timer_countdown = patient.incoming-timer_countdown;
    written-timer_countdown = patient.peer-timer_countdown;
  }
