-- ===== src/Platform/Files.antt =====
-- The file system and the file backends of the configuration library, as init_config_backend.c and
-- LogServer.c call them. A file system handle is an `F`, and a backend is a `B`.
use demo_iot_app_hw.Base.{ℕ, List, ℤ}

pub record FileSystem (W F : Type 0) : Type 0 where
  pub fs_init : W → ℤ × F × W
  pub fs_mount : F → W → ℤ × W
  pub fs_free : F → W → ℤ × W

-- `lib_init` gets the backends for parameters, domains, strings and blobs. The library object is the
-- only instance, which is part of `W`.
pub record Backends (W F B : Type 0) : Type 0 where
  pub max_file_name_size : ℕ
  pub initialize_file_backend : List ℕ → F → W → ℤ × B × W
  pub lib_init : B → B → B → B → W → ℤ × W
