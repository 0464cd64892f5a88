-- ===== src/Tls/Write.antt =====
-- The loop of glue_tls_mqtt_write in glue_tls_mqtt.c.
use demo_iot_app_hw.Base.{ℕ, ◌≤◌, ◌≡◌, ◌⊎◌, List, ◌++◌, length, take, ℤ, Run, ok}
use demo_iot_app_hw.Platform.{mqtt_success, mqtt_failure, mqtt_timeout}
use demo_iot_app_hw.Platform.Os.{OsErrors}
use demo_iot_app_hw.Platform.Tls.{TlsStack}
use demo_iot_app_hw.Tls.Clock.{IsLive}

module _ {W : Type 0} (er : OsErrors) (tls : TlsStack W) (live : IsLive er tls) where
  -- How the call may end: success with the whole of `bytes` sent, or an error with a first part. It is
  -- a timeout only when the deadline has come.
  abbrev pub IsSent : ℕ → W → List ℕ → Run (ℤ × W) → Type 0
  IsSent deadline w bytes run =
      (rc : ℤ) × (w' : W) × (sent : ℕ) × (run ≡ ok (rc, w'))
      × (live.peer w' ≡ live.peer w ++ take sent bytes)
      × (((rc ≡ mqtt_success) × (sent ≡ length bytes))
          ⊎ ((((rc ≡ mqtt_timeout) × (deadline ≤ live.clock w')) ⊎ (rc ≡ mqtt_failure))
              × (sent ≤ length bytes)))
