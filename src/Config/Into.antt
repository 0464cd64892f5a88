-- ===== src/Config/Into.antt =====
-- A configuration parameter that is read into an array of the caller, as every component does it.
use demo_iot_app_hw.Base.{ℕ, Option, none, some, List, ℤ, Run, ok, ◌>>=◌}
use demo_iot_app_hw.Base.Memory.{blit}
use demo_iot_app_hw.Platform.Os.{OsErrors, ConfigService}
use demo_iot_app_hw.Config.{get_config_parameter}

-- What a call leaves in the array: the value at its front, where there is one.
abbrev pub stored : List ℕ → Option (List ℕ) → Run (List ℕ)
stored buf none = ok buf
stored buf (some bytes) = blit buf 0 bytes

module _ {W H E D Q : Type 0} (er : OsErrors) (cs : ConfigService W H E D Q) where
  -- `helper_func_getConfigParameter` into an array of `len` bytes.
  unfoldable pub read_into : ℕ → H → List ℕ → List ℕ → ℕ → List ℕ → W → Run (ℤ × List ℕ × W)
  read_into fuel handle domain parameter len buf w = do
    (ret, bytes, w') ← get_config_parameter er cs fuel handle domain parameter len w
    buf' ← stored buf bytes
    ok (ret, buf', w')
