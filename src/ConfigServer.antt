-- ===== src/ConfigServer.antt =====
-- components/ConfigServer/src: the configuration server opens the four files of its library.
pub mod Files
use demo_iot_app_hw.Base.{ℕ, List, [], ◌∷◌, if◌then◌else◌, ℤ, ◌==ℤ◌}
use demo_iot_app_hw.Config.Names.{initialize_name}
use demo_iot_app_hw.Platform.Os.{os_success}
use demo_iot_app_hw.Platform.Files.{FileSystem, Backends}

-- "PARAM.BIN", "DOMAIN.BIN", "STRING.BIN" and "BLOB.BIN".
abbrev pub parameter_file : List ℕ
parameter_file = 80 ∷ 65 ∷ 82 ∷ 65 ∷ 77 ∷ 46 ∷ 66 ∷ 73 ∷ 78 ∷ []

abbrev pub domain_file : List ℕ
domain_file = 68 ∷ 79 ∷ 77 ∷ 65 ∷ 73 ∷ 78 ∷ 46 ∷ 66 ∷ 73 ∷ 78 ∷ []

abbrev pub string_file : List ℕ
string_file = 83 ∷ 84 ∷ 82 ∷ 73 ∷ 78 ∷ 71 ∷ 46 ∷ 66 ∷ 73 ∷ 78 ∷ []

abbrev pub blob_file : List ℕ
blob_file = 66 ∷ 76 ∷ 79 ∷ 66 ∷ 46 ∷ 66 ∷ 73 ∷ 78 ∷ []

module _ {W F B : Type 0} (fs : FileSystem W F) (lib : Backends W F B) where
  -- A backend for a file; the name goes through `initializeName` of init_config_backend.c, which is the
  -- function of helper_func.c.
  unfoldable pub open_backend : List ℕ → F → W → ℤ × B × W
  open_backend file handle w =
      lib.initialize_file_backend (initialize_name lib.max_file_name_size file) handle w

  -- `initializeFileBackends`
  unfoldable pub initialize_file_backends : F → W → ℤ × W
  unfolding open_backend
  initialize_file_backends handle w =
      let (err1, domains, w1) = open_backend domain_file handle w in
      let (err2, parameters, w2) = open_backend parameter_file handle w1 in
      let (err3, strings, w3) = open_backend string_file handle w2 in
      let (err4, blobs, w4) = open_backend blob_file handle w3 in
      if err1 ==ℤ os_success
      then (if err2 ==ℤ os_success
          then (if err3 ==ℤ os_success
              then (if err4 ==ℤ os_success
                  then lib.lib_init parameters domains strings blobs w4
                  else (err4, w4))
              else (err3, w3))
          else (err2, w2))
      else (err1, w1)

  -- `init_system_config_backend`
  unfoldable pub init_system_config_backend : W → ℤ × W
  init_system_config_backend w =
      let (err, handle, w1) = fs.fs_init w in
      let (err', w2) = fs.fs_mount handle w1 in
      if err ==ℤ os_success
      then (if err' ==ℤ os_success then initialize_file_backends handle w2 else (err', w2))
      else (err, w1)

  -- `post_init` of ConfigServer.c: an error is only logged.
  unfoldable pub config_server_post_init : W → W
  config_server_post_init w = (init_system_config_backend w).1
