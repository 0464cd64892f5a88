-- ===== src/Platform/Camkes.antt =====
-- What CloudConnector.c calls beside the MQTT code: its semaphore, the dataport that the sensor
-- writes to, and the managed buffer of the SDK.
use demo_iot_app_hw.Base.{ℕ, ◌-◌, ◌+◌, ◌≤◌, ◌≡◌, List, length, ℤ}
use demo_iot_app_hw.Base.Memory.{overwrite}

-- `sem_wait`, `sem_post` and the bytes of `sensor_port`.
pub record Semaphore (W : Type 0) : Type 0 where
  pub sem_wait : W → ℤ × W
  pub sem_post : W → ℤ × W
  pub sensor_port : W → List ℕ

-- `managedBuffer_t`: `bytes` is the array that it manages, and the pointer to the free space is an
-- offset into it.
pub record ManagedBuffer (M : Type 0) : Type 0 where
  pub init : List ℕ → M
  pub bytes : M → List ℕ
  pub free_space : M → ℕ
  pub free_space_ptr : M → ℕ
  pub append : List ℕ → M → M

-- Its documented behaviour: it starts empty, and what fits is appended behind what was there.
pub record IsManaged {M : Type 0} (mb : ManagedBuffer M) : Type 0 where
  pub bytes-init : (buf : List ℕ) → mb.bytes (mb.init buf) ≡ buf
  pub free_space-init : (buf : List ℕ) → mb.free_space (mb.init buf) ≡ length buf
  pub free_space_ptr-init : (buf : List ℕ) → mb.free_space_ptr (mb.init buf) ≡ 0
  pub bytes-append :
      (xs : List ℕ) (m : M)
      → length xs ≤ mb.free_space m
      → mb.bytes (mb.append xs m) ≡ overwrite (mb.bytes m) (mb.free_space_ptr m) xs
  pub free_space-append :
      (xs : List ℕ) (m : M)
      → length xs ≤ mb.free_space m
      → mb.free_space (mb.append xs m) ≡ mb.free_space m - length xs
  pub free_space_ptr-append :
      (xs : List ℕ) (m : M)
      → length xs ≤ mb.free_space m
      → mb.free_space_ptr (mb.append xs m) ≡ mb.free_space_ptr m + length xs
