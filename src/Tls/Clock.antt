-- ===== src/Tls/Clock.antt =====
-- What the loops of glue_tls_mqtt.c rely on: a clock that does not go back, and a TLS library that
-- takes or gives at least a byte where it reports success.
use demo_iot_app_hw.Base.{
  ℕ, suc, ◌+◌, ◌-◌, ◌*◌, ◌^◌, ltb, true, false, ◌≤◌, ◌<◌, ◌≡◌, ◌≢◌, ◌⊎◌, List, ◌++◌, length, take,
  arith,
}
use demo_iot_app_hw.Platform.Os.{os_success, OsErrors}
use demo_iot_app_hw.Platform.Tls.{TlsStack}
use demo_iot_app_hw.Tls.{sub_u64, get_time_ms}

-- `clock w` is the time in milliseconds, which does not go back. A thread that gives away its time
-- slice may be resumed at once.
-- `peer w` is what the other side has been sent, and `incoming w` is what it has sent and what has
-- not been read.
pub record IsLive {W : Type 0} (er : OsErrors) (tls : TlsStack W) : Type 0 where
  pub clock : W → ℕ
  pub peer : W → List ℕ
  pub incoming : W → List ℕ
  pub below : (w : W) → clock w < 2 ^ 64
  pub retry : er.would_block ≢ os_success
  pub time :
      (w : W)
      → ((tls.get_time_msec w).0 ≡ os_success)
        × ((tls.get_time_msec w).1 ≡ clock (tls.get_time_msec w).2)
        × (clock w ≤ clock (tls.get_time_msec w).2)
        × (peer (tls.get_time_msec w).2 ≡ peer w)
        × (incoming (tls.get_time_msec w).2 ≡ incoming w)
  pub resumed :
      (w : W)
      → (clock w ≤ clock (tls.yield_slice w))
        × (peer (tls.yield_slice w) ≡ peer w)
        × (incoming (tls.yield_slice w) ≡ incoming w)
  pub wrote :
      (bytes : List ℕ) (w : W)
      → (tls.tls_write bytes w).0 ≡ os_success
      → (0 < (tls.tls_write bytes w).1)
        × ((tls.tls_write bytes w).1 ≤ length bytes)
        × (peer (tls.tls_write bytes w).2 ≡ peer w ++ take (tls.tls_write bytes w).1 bytes)
  pub wrote_not :
      (bytes : List ℕ) (w : W)
      → (tls.tls_write bytes w).0 ≢ os_success
      → peer (tls.tls_write bytes w).2 ≡ peer w
  pub clock-write : (bytes : List ℕ) (w : W) → clock w ≤ clock (tls.tls_write bytes w).2
  pub got :
      (n : ℕ) (w : W)
      → (tls.tls_read n w).0 ≡ os_success
      → (0 < length (tls.tls_read n w).1)
        × (length (tls.tls_read n w).1 ≤ n)
        × (incoming w ≡ (tls.tls_read n w).1 ++ incoming (tls.tls_read n w).2)
  pub got_not :
      (n : ℕ) (w : W)
      → (tls.tls_read n w).0 ≢ os_success
      → incoming (tls.tls_read n w).2 ≡ incoming w
  pub clock-read : (n : ℕ) (w : W) → clock w ≤ clock (tls.tls_read n w).2

-- The clock does not stand still: while it has not reached the end of its range, at most `most` rounds in
-- a row, in which a write would block and the thread gives away its time slice, end in the millisecond
-- in which they began.
pub record IsTicking {W : Type 0} (er : OsErrors) (tls : TlsStack W) (live : IsLive er tls)
    (most : ℕ) : Type 0 where
  pub idle : W → ℕ
  pub idle_few : (w : W) → idle w ≤ most
  pub blocked :
      (bytes : List ℕ) (w : W)
      → let (ret, actual, w2) = tls.tls_write bytes (get_time_ms er tls w).1 in
        live.clock w + 1 < 2 ^ 64
        → ret ≡ er.would_block
        → (live.clock w < live.clock (tls.yield_slice w2)) ⊎ (idle (tls.yield_slice w2) < idle w)

-- The session does not keep a read waiting for ever: after at most `most` rounds in a row, in which a read
-- would block and the thread gives away its time slice, bytes or an error come.
pub record IsResponsive {W : Type 0} (er : OsErrors) (tls : TlsStack W) (most : ℕ) : Type 0 where
  pub waits : W → ℕ
  pub waits_few : (w : W) → waits w ≤ most
  pub blocked :
      (n : ℕ) (w : W)
      → let (ret, bytes, w2) = tls.tls_read n (get_time_ms er tls w).1 in
        0 < n → ret ≡ er.would_block → waits (tls.yield_slice w2) < waits w

-- A measure of two parts goes down with the first, and with the second while the first does not go up.
pub falls_first : (most a a' i j : ℕ) → a' < a → i ≤ most → a' * suc most + i < a * suc most + j
falls_first most a a' i j less few = grind arith

pub falls_second : (most a a' i j : ℕ) → a' ≤ a → i < j → a' * suc most + i < a * suc most + j
falls_second most a a' i j less few = grind arith

-- The test of the loops, as an order.
pub before_deadline :
    (now entry allowed : ℕ)
    → entry ≤ now
    → now < 2 ^ 64
    → ltb (sub_u64 now entry) allowed ≡ true
    → now < entry + allowed
before_deadline now entry allowed h b e =
    let gone : sub_u64 now entry ≡ now - entry = omega arith in
    let soon : sub_u64 now entry < allowed = ground (arith, e) in omega (arith, gone, soon)

pub after_deadline :
    (now entry allowed : ℕ)
    → entry ≤ now
    → now < 2 ^ 64
    → ltb (sub_u64 now entry) allowed ≡ false
    → entry + allowed ≤ now
after_deadline now entry allowed h b e =
    let gone : sub_u64 now entry ≡ now - entry = omega arith in
    let late : allowed ≤ sub_u64 now entry = ground (arith, e) in omega (arith, gone, late)

module _ {W : Type 0} (er : OsErrors) (tls : TlsStack W) (live : IsLive er tls) where
  -- The time that the code reads is the time when the call returns.
  pub get_time_ms-clock :
      (w : W)
      → let (now, w') = get_time_ms er tls w in
        (now ≡ live.clock w')
        × (live.clock w ≤ live.clock w')
        × (live.peer w' ≡ live.peer w)
        × (live.incoming w' ≡ live.incoming w)
  unfolding get_time_ms
  get_time_ms-clock w = let (good, ms, later, same, same') = live.time w in ground arith
