-- ===== src/Tls.antt =====
-- components/CloudConnector/src/glue_tls_mqtt.c: the functions behind the client's `Network` object
-- and the setting up of the TLS connection. Its loops run on fuel.
pub mod Socket
pub mod Connecting
pub mod Clock
pub mod Write
pub mod Read
pub mod Prompt
pub mod Taken
pub mod Wan
pub mod Opening
use demo_iot_app_hw.Base.{
  ℕ, zero, suc, some, ◌+◌, ◌-◌, ◌%◌, ◌^◌, List, length, replicate, ◌==◌, ltb, if◌then◌else◌, ℤ, pos,
  negsuc, ◌==ℤ◌, Run, ok, out_of_fuel, ◌>>=◌,
}
use demo_iot_app_hw.Base.Memory.{region, blit}
use demo_iot_app_hw.Platform.{mqtt_success, mqtt_failure, mqtt_timeout, Network}
use demo_iot_app_hw.Platform.Os.{os_success, OsErrors}
use demo_iot_app_hw.Platform.Tls.{TlsStack}

-- An `int` in a comparison with a `uint64_t`.
abbrev pub as_u64 : ℤ → ℕ
as_u64 (pos n) = n
as_u64 (negsuc n) = 2 ^ 64 - n - 1

-- `uint64_t` and `size_t` subtraction; `size_t` has 32 bits on the smaller targets.
abbrev pub sub_u64 : ℕ → ℕ → ℕ
sub_u64 a b = (a + 2 ^ 64 - b) % 2 ^ 64

abbrev pub sub_size : ℕ → ℕ → ℕ
sub_size a b = (a + 2 ^ 32 - b) % 2 ^ 32

abbrev pub add_size : ℕ → ℕ → ℕ
add_size a b = (a + b) % 2 ^ 32

module _ {W : Type 0} (er : OsErrors) (tls : TlsStack W) where
  -- `glue_tls_mqtt_getTimeMs`
  unfoldable pub get_time_ms : W → ℕ × W
  get_time_ms w =
      let (err, ms, w') = tls.get_time_msec w in (if err ==ℤ os_success then ms else 0, w')

  -- The loop of `glue_tls_mqtt_write` and the test behind it.
  unfoldable pub write_loop : ℕ → List ℕ → ℕ → ℤ → ℕ → ℕ → W → Run (ℤ × W)
  write_loop zero buf entry timeout_ms remaining written w = out_of_fuel
  write_loop (suc fuel) buf entry timeout_ms remaining written w =
      let (now, w1) = get_time_ms w in
      let step : Run (ℤ × W) =
        (region buf written remaining >>= λ bytes.
        let (ret, actual, w2) = tls.tls_write bytes w1 in
        let sent =
          write_loop fuel buf entry timeout_ms (sub_size remaining actual) (add_size written actual)
            w2 in
        let again = write_loop fuel buf entry timeout_ms remaining written (tls.yield_slice w2) in
        if ret ==ℤ os_success
        then sent
        else (if ret ==ℤ er.would_block then again else ok (mqtt_failure, w2))) in
      if remaining == 0
      then ok (mqtt_success, w)
      else (if ltb (sub_u64 now entry) (as_u64 timeout_ms) then step else ok (mqtt_timeout, w1))

  -- `glue_tls_mqtt_write`
  unfoldable pub tls_mqtt_write : ℕ → List ℕ → ℤ → W → Run (ℤ × W)
  tls_mqtt_write fuel buf timeout_ms w =
      let (entry, w1) = get_time_ms w in
      let sent = write_loop fuel buf entry timeout_ms (length buf) 0 w1 in
      if entry == 0 then ok (mqtt_failure, w1) else sent

  -- The loop of `glue_tls_mqtt_read` and the test behind it; `buf` is what the buffer holds.
  unfoldable pub read_loop : ℕ → List ℕ → ℕ → ℤ → ℕ → ℕ → W → Run (ℤ × List ℕ × W)
  read_loop zero buf entry timeout_ms remaining read w = out_of_fuel
  read_loop (suc fuel) buf entry timeout_ms remaining read w =
      let (now, w1) = get_time_ms w in
      let (ret, bytes, w2) = tls.tls_read remaining w1 in
      let received : Run (ℤ × List ℕ × W) =
        (blit buf read bytes >>= λ buf'.
        read_loop fuel buf' entry timeout_ms (sub_size remaining (length bytes))
          (add_size read (length bytes)) w2) in
      let again = read_loop fuel buf entry timeout_ms remaining read (tls.yield_slice w2) in
      let step =
        if ret ==ℤ os_success
        then received
        else (if ret ==ℤ er.would_block then again else ok (mqtt_failure, buf, w2)) in
      if remaining == 0
      then ok (mqtt_success, buf, w)
      else (if ltb (sub_u64 now entry) (as_u64 timeout_ms)
          then step
          else ok (mqtt_timeout, buf, w1))

  -- `glue_tls_mqtt_read`: the `memset` comes behind the test of the entry time.
  unfoldable pub tls_mqtt_read : ℕ → List ℕ → ℤ → W → Run (ℤ × List ℕ × W)
  tls_mqtt_read fuel buf timeout_ms w =
      let (entry, w1) = get_time_ms w in
      let received = read_loop fuel (replicate (length buf) 0) entry timeout_ms (length buf) 0 w1 in
      if entry == 0 then ok (mqtt_failure, buf, w1) else received

  -- The two functions behind the pointers of the client's network object, as `CC_FSM_ctor` of
  -- CloudConnector.c sets them.
  abbrev pub wan : ℕ → Network W
  wan fuel = record {
    mqttread = some (λ buf timeout_ms w. tls_mqtt_read fuel buf timeout_ms w);
    mqttwrite = some (λ buf timeout_ms w. tls_mqtt_write fuel buf timeout_ms w);
  }
