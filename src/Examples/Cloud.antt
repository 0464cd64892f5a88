-- ===== src/Examples/Cloud.antt =====
-- A TLS session that works.
use demo_iot_app_hw.Base.{
  ℕ, zero, suc, ◌+◌, ◌-◌, ◌*◌, ◌^◌, ◌≤◌, ◌<◌, min, ◌≡◌, ◌≢◌, ◌⊎◌, inl, inr, refl, Bool, true, false,
  if◌then◌else◌, List, [], ◌∷◌, ◌++◌, length, take, ℤ, pos, arith,
}
use mathlib.Core.List.{append-nil}
use demo_iot_app_hw.Platform.Os.{os_success}
use demo_iot_app_hw.Platform.Tls.{TlsStack, running}
use demo_iot_app_hw.Tls.{get_time_ms}
use demo_iot_app_hw.Tls.Clock.{IsLive}
use demo_iot_app_hw.Tls.Prompt.{IsPrompt}
use demo_iot_app_hw.Examples.Fixture.{World, os_errors}

-- The two directions of a TLS session that is busy after each byte until the thread gives its time slice
-- away, a clock, and the rest of the outside.
pub record Cloud : Type 0 where
  pub to_peer : List ℕ
  pub from_peer : List ℕ
  pub busy : Bool
  pub time : ℕ
  pub board : World

abbrev pub clock_of : Cloud → ℕ
clock_of w = min (w.time + 1) (2 ^ 64 - 1)

-- What is written, and whether the session is busy then.
abbrev pub write : Bool → List ℕ → ℤ × List ℕ × Bool
write true bytes = (os_errors.would_block, [], true)
write false [] = (os_errors.would_block, [], false)
write false (b ∷ bytes) = (os_success, b ∷ [], true)

-- What is read, and what is left; the peer closes the session behind its last byte.
abbrev pub read : Bool → ℕ → List ℕ → ℤ × List ℕ × List ℕ × Bool
read true n bytes = (os_errors.would_block, [], bytes, true)
read false zero bytes = (os_errors.would_block, [], bytes, false)
read false (suc n) [] = (os_errors.connection_closed, [], [], false)
read false (suc n) (b ∷ bytes) = (os_success, b ∷ [], bytes, true)

abbrev pub tls : TlsStack Cloud
tls = record {
  get_time_msec = λ w. (os_success, clock_of w, w);
  yield_slice = λ w. record w { time = w.time + 1; busy = false };
  crypto_init = λ w. (os_success, w);
  tls_init = λ cert w. (os_success, w);
  tls_handshake = λ w. (os_success, w);
  tls_write = λ bytes w.
      let (code, sent, busy) = write w.busy bytes in
      (code, length sent, record w { to_peer = w.to_peer ++ sent; busy = busy });
  tls_read = λ n w.
      let (code, bytes, left, busy) = read w.busy n w.from_peer in
      (code, bytes, record w { from_peer = left; busy = busy });
  addr_size = 16;
  event_bits = record { fin = 1; conn_est = 2; close = 4; error = 8 };
  socket_get_status = λ w. (running, w);
  socket_create = λ w. (os_success, 0, w);
  socket_connect = λ handle addr port w. (os_success, w);
  socket_wait = λ w. (os_success, w);
  get_pending_events = λ n w.
      (os_success, pos 1, record { socket_handle = 0; event_mask = 2; current_error = pos 0 }, w);
  socket_close = λ handle w. w;
}

pub write-sent :
    (busy : Bool) (bytes to_peer : List ℕ)
    → (write busy bytes).0 ≡ os_success
    → (0 < length (write busy bytes).1)
      × (length (write busy bytes).1 ≤ length bytes)
      × (to_peer ++ (write busy bytes).1 ≡ to_peer ++ take (length (write busy bytes).1) bytes)
write-sent true bytes to_peer h = ground arith
write-sent false [] to_peer h = ground arith
write-sent false (b ∷ bytes) to_peer h = (omega arith, omega arith, refl)

pub write-blocked :
    (busy : Bool) (bytes to_peer : List ℕ)
    → (write busy bytes).0 ≢ os_success
    → to_peer ++ (write busy bytes).1 ≡ to_peer
write-blocked true bytes to_peer h = rw append-nil
write-blocked false [] to_peer h = rw append-nil
write-blocked false (b ∷ bytes) to_peer h = absurd (h refl)

pub read-got :
    (busy : Bool) (n : ℕ) (bytes : List ℕ)
    → (read busy n bytes).0 ≡ os_success
    → (0 < length (read busy n bytes).1)
      × (length (read busy n bytes).1 ≤ n)
      × (bytes ≡ (read busy n bytes).1 ++ (read busy n bytes).2)
read-got true n bytes h = ground arith
read-got false zero bytes h = ground arith
read-got false (suc n) [] h = ground arith
read-got false (suc n) (b ∷ bytes) h = (omega arith, omega arith, refl)

pub read-blocked :
    (busy : Bool) (n : ℕ) (bytes : List ℕ)
    → (read busy n bytes).0 ≢ os_success
    → (read busy n bytes).2 ≡ bytes
read-blocked true n bytes h = refl
read-blocked false zero bytes h = refl
read-blocked false (suc n) [] h = refl
read-blocked false (suc n) (b ∷ bytes) h = absurd (h refl)

abbrev pub live : IsLive os_errors tls
live = record {
  clock = clock_of;
  peer = λ w. w.to_peer;
  incoming = λ w. w.from_peer;
  below = λ w. omega arith;
  retry = λ e. ground arith;
  time = λ w. (refl, refl, omega arith, refl, refl);
  resumed = λ w. (omega arith, refl, refl);
  wrote = λ bytes w h. write-sent w.busy bytes w.to_peer h;
  wrote_not = λ bytes w h. write-blocked w.busy bytes w.to_peer h;
  clock-write = λ bytes w. omega arith;
  got = λ n w h. read-got w.busy n w.from_peer h;
  got_not = λ n w h. read-blocked w.busy n w.from_peer h;
  clock-read = λ n w. omega arith;
}

-- Each byte takes a round, and a round of waiting.
abbrev pub rounds : ℕ → Bool → ℕ
rounds n busy = 2 * n + (if busy then 1 else 0)

read-prompt :
    (busy : Bool) (n : ℕ) (bytes : List ℕ)
    → 0 < n
    → n ≤ length bytes
    → let (code, got, left, busy') = read busy n bytes in
      ((code ≡ os_success) × (rounds (n - length got) busy' < rounds n busy))
      ⊎ ((code ≡ os_errors.would_block) × (rounds n false < rounds n busy))
read-prompt true n bytes h there = inr (refl, omega arith)
read-prompt false zero bytes h there = absurd (omega arith)
read-prompt false (suc n) [] h there = absurd (omega arith)
read-prompt false (suc n) (b ∷ bytes) h there = inl (refl, omega arith)

write-prompt :
    (busy : Bool) (bytes : List ℕ) (time : ℕ)
    → 0 < length bytes
    → let n = length bytes in
      let now = min (time + 1) (2 ^ 64 - 1) in
      let later = min (time + 1 + 1) (2 ^ 64 - 1) in
      let (code, sent, busy') = write busy bytes in
      (now < now + rounds n busy)
      × (((code ≡ os_success)
            × (rounds (n - length sent) busy' < rounds n busy)
            × (now + rounds (n - length sent) busy' ≤ now + rounds n busy))
          ⊎ ((code ≡ os_errors.would_block)
              × (rounds n false < rounds n busy)
              × (later + rounds n false ≤ now + rounds n busy)))
write-prompt true bytes time h = (omega arith, inr (refl, omega arith, omega arith))
write-prompt false [] time h = absurd (omega arith)
write-prompt false (b ∷ bytes) time h = (omega arith, inl (refl, omega arith, omega arith))

rounds_few : (n size : ℕ) (busy : Bool) → n ≤ size → rounds n busy < 2 * size + 2
rounds_few n size true h = omega arith
rounds_few n size false h = omega arith

pub prompt : (size : ℕ) → IsPrompt os_errors tls live size (2 * size + 2) (2 * size + 1)
unfolding get_time_ms
prompt size = record {
  started = λ w. omega arith;
  peer-read = λ n w. refl;
  incoming-write = λ bytes w. refl;
  read_rounds = λ n w. rounds n w.busy;
  read_few = λ n w h. rounds_few n size w.busy h;
  reads = λ n w h there. read-prompt w.busy n w.from_peer h there;
  write_rounds = λ n w. rounds n w.busy;
  write_few = λ n w h. rounds_few n size w.busy h;
  due = λ n w. clock_of w + rounds n w.busy;
  due_soon = λ n w h. omega (arith, rounds_few n size w.busy h);
  writes = λ bytes w h. write-prompt w.busy bytes w.time h;
}
