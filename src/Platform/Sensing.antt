-- ===== src/Platform/Sensing.antt =====
-- What SensorTemp.c calls beside the configuration service and Paho: the time server, the dataport to
-- the CloudConnector and the remote call.
use demo_iot_app_hw.Base.{ℕ, List, ℤ, Run}

-- `put` copies bytes to the front of the dataport of `port_size` bytes.
pub record Device (W : Type 0) : Type 0 where
  pub periodic : ℕ → ℕ → W → ℤ × W
  pub notify_wait : W → W
  pub port_size : ℕ
  pub put : List ℕ → W → W

-- The remote call runs the code of the CloudConnector, which may fault or never return.
pub record Sensing (W : Type 0) : Type 0 where
  pub device : Device W
  pub rpc_write : W → Run (ℤ × W)
