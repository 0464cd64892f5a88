-- ===== src/Examples/LogServer.antt =====
-- Runs of the theorems on components/LogServer/src.
use demo_iot_app_hw.Base.{
  ℕ, suc, replicate, ◌≡◌, ◌≢◌, ◌⊎◌, inr, refl, none, some, List, [], ◌∷◌, ◌++◌, length, drop,
  negsuc, ok, fault, arith,
}
use demo_iot_app_hw.Platform.Os.{os_success}
use demo_iot_app_hw.Platform.Files.{FileSystem}
use demo_iot_app_hw.Platform.Logging.{Logger, TimeServer}
use demo_iot_app_hw.LogServer.{init_file_system, pre_init}
use demo_iot_app_hw.LogServer.Logs.{
  Logs, set_outputs, set_level, register, append, attach, IsLogger, routes_of, log_routes,
}
use demo_iot_app_hw.LogServer.Routes.{pre_init-routes}
use demo_iot_app_hw.LogServer.Printf.{left_aligned}
use demo_iot_app_hw.LogServer.Format.{Widths, LogEntry, LogClock, convert}
use demo_iot_app_hw.LogServer.Format.Columns.{columns}
use demo_iot_app_hw.LogServer.Format.Converting.{convert-columns, convert_fault}
use demo_iot_app_hw.Examples.Fixture.{os_errors}

-- A file system that cannot be mounted, and that can be freed.
abbrev file_system : FileSystem Logs ℕ
file_system = record {
  fs_init = λ w. (os_success, 7, w);
  fs_mount = λ h w. (negsuc 0, w);
  fs_free = λ h w. (os_success, w);
}

-- The outside is what the logger's objects hold.
abbrev logger : Logger Logs ℕ
logger = record {
  level_info = 3;
  chain_get_instance = λ w. w;
  subject_ctor = λ s w. set_outputs s [] w;
  file_ctor = λ h name w. w;
  output_file_system_ctor = λ o w. w;
  output_console_ctor = λ o w. w;
  subject_attach = λ s o w. attach s o w;
  filter_ctor = λ c level w. set_level c level w;
  callback_ctor = λ time w. w;
  consumer_ctor = λ c b f s id name w.
      register c (record { buffer = b; filter = f; observed = s; id = id; name = name }) w;
  emitter_get_instance = λ b c w. w;
  chain_append = λ c w. append c w;
  file_create = λ w. w;
}

abbrev is_logger : IsLogger file_system logger
is_logger = record {
  logs = λ w. w;
  fs_init = λ w. refl;
  fs_mount = λ h w. refl;
  fs_free = λ h w. refl;
  chain_get_instance = λ w. refl;
  file_ctor = λ h name w. refl;
  output_file_system_ctor = λ o w. refl;
  output_console_ctor = λ o w. refl;
  callback_ctor = λ time w. refl;
  emitter_get_instance = λ b c w. refl;
  file_create = λ w. refl;
  subject_ctor = λ s w. refl;
  subject_attach = λ s o w. refl;
  filter_ctor = λ c level w. refl;
  consumer_ctor = λ c b f s id name w. refl;
  chain_append = λ c w. refl;
}

abbrev no_logs : Logs
no_logs = record { outputs = λ s. []; level = λ c. none; registered = λ c. none; chain = [] }

abbrev time : TimeServer Logs
time = record { get_time = λ w. (os_success, 0, w) }

pre_init-routes_example :
    (((init_file_system file_system no_logs).0 ≡ os_success)
      × (routes_of
            (pre_init file_system time logger no_logs)
            (pre_init file_system time logger no_logs).chain
          ≡ log_routes 3))
    ⊎ (((init_file_system file_system no_logs).0 ≢ os_success)
        × (pre_init file_system time logger no_logs ≡ no_logs))
pre_init-routes_example = pre_init-routes file_system time logger is_logger no_logs refl

abbrev sizes : Widths
sizes = record { id_length = 2; name_length = 4; log_level_length = 1; entry_message_length = 3 }

-- The time is 01:02:03.
abbrev clock : LogClock ℕ
clock = record {
  check_self = none;
  set_timestamp = λ t w. t;
  get_time = λ zone w. (record { hour = 1; min = 2; sec = 3 }, w);
}

-- "NIC" and "hallo".
abbrev entry : LogEntry
entry = record {
  id = 40;
  name = 78 ∷ 73 ∷ 67 ∷ 0 ∷ [];
  timestamp = 3723;
  emitter_level = 3;
  consumer_level = 3;
  msg = 104 ∷ 97 ∷ 108 ∷ 108 ∷ 111 ∷ 0 ∷ 9 ∷ [];
}

convert-columns_example :
    (line : List ℕ) × (convert os_errors sizes clock (some entry) (replicate 30 0) 0
      ≡ ok (os_success, line ++ (0 ∷ drop (suc (length line)) (replicate 30 0)), 3723))
    × (columns sizes line ≡ record {
      id = 40;
      name = left_aligned 4 (78 ∷ 73 ∷ 67 ∷ []);
      hour = 1;
      min = 2;
      sec = 3;
      emitter_level = 3;
      consumer_level = 3;
      text = 104 ∷ 97 ∷ 108 ∷ 10 ∷ [];
    })
convert-columns_example =
    convert-columns os_errors sizes clock entry (78 ∷ 73 ∷ 67 ∷ [])
      (104 ∷ 97 ∷ 108 ∷ 108 ∷ 111 ∷ []) [] (9 ∷ []) (replicate 30 0) 0 refl refl refl
      ((λ e. omega arith), ((λ e. omega arith), ((λ e. omega arith), tt)))
      (
        (λ e. omega arith),
        ((λ e. omega arith), ((λ e. omega arith), ((λ e. omega arith), ((λ e. omega arith), tt)))),
      )
      (record {
        id_some = omega arith;
        level_some = omega arith;
        id = omega arith;
        name = omega arith;
        hour = omega arith;
        min = omega arith;
        sec = omega arith;
        emitter_level = omega arith;
        consumer_level = omega arith;
      })
      (omega arith)

-- A buffer of 20 bytes is too small for the name "NIC".
convert_fault_example : convert os_errors sizes clock (some entry) (replicate 20 0) 0 ≡ fault
convert_fault_example =
    convert_fault os_errors sizes clock entry (replicate 20 0) 0 refl (inr (omega arith))
