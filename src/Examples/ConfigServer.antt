-- ===== src/Examples/ConfigServer.antt =====
-- Runs of the theorems on components/ConfigServer/src.
use demo_iot_app_hw.Base.{ℕ, refl, Option, none, some, List, arith}
use demo_iot_app_hw.Config.Names.{c_string}
use demo_iot_app_hw.Platform.Os.{os_success}
use demo_iot_app_hw.Platform.Files.{FileSystem, Backends}
use demo_iot_app_hw.ConfigServer.{init_system_config_backend}
use demo_iot_app_hw.ConfigServer.Files.{Files, IsBacked, Started, init_system_config_backend-using}

-- The outside is what the library uses, since no call fails; a backend is the name of its file.
abbrev file_system : FileSystem (Option Files) ℕ
file_system = record {
  fs_init = λ w. (os_success, 7, w);
  fs_mount = λ h w. (os_success, w);
  fs_free = λ h w. (os_success, w);
}

abbrev backends : Backends (Option Files) ℕ (List ℕ)
backends = record {
  max_file_name_size = 16;
  initialize_file_backend = λ name h w. (os_success, c_string name, w);
  lib_init = λ p d s b w.
      (os_success, some (record { parameters = p; domains = d; strings = s; blobs = b }));
}

abbrev backed : IsBacked file_system backends
backed = record {
  file_of = λ b. b;
  using = λ w. w;
  failures = λ w. 0;
  failures-init = λ w. refl;
  failures-mount = λ h w. refl;
  failures-backend = λ name h w. refl;
  failures-lib_init = λ p d s b w. refl;
  using-init = λ w. refl;
  using-mount = λ h w. refl;
  using-backend = λ name h w. refl;
  opens = λ name h w good. refl;
  starts = λ p d s b w good. refl;
  starts_not = λ p d s b w bad. absurd (bad refl);
}

init_system_config_backend-using_example :
    Started file_system backends backed none
      (init_system_config_backend file_system backends none).0
      (init_system_config_backend file_system backends none).1
init_system_config_backend-using_example =
    init_system_config_backend-using file_system backends backed 15 none refl (omega arith)
