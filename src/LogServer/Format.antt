-- ===== src/LogServer/Format.antt =====
-- components/LogServer/src/custom_log_format.c: an entry becomes a line in the buffer of the format.
pub mod Columns
pub mod Converting
use demo_iot_app_hw.Base.{
  ℕ, suc, ◌==◌, List, [], ◌∷◌, ◌++◌, Option, none, some, take, leb, if◌then◌else◌, ℤ, Run, ok,
  fault, ◌>>=◌,
}
use demo_iot_app_hw.Base.Memory.{blit}
use demo_iot_app_hw.Platform.Os.{os_success, OsErrors}
use demo_iot_app_hw.Config.Names.{c_string, strlen}
use demo_iot_app_hw.LogServer.Printf.{zero_padded, right_aligned, left_aligned}

-- `OS_Logger_ID_LENGTH`, `OS_Logger_NAME_LENGTH`, `OS_Logger_LOG_LEVEL_LENGTH` and
-- `OS_Logger_ENTRY_MESSAGE_LENGTH`.
pub record Widths : Type 0 where
  pub id_length : ℕ
  pub name_length : ℕ
  pub log_level_length : ℕ
  pub entry_message_length : ℕ

-- `OS_LoggerEntry_t`: the name and the message are arrays.
pub record LogEntry : Type 0 where
  pub id : ℕ
  pub name : List ℕ
  pub timestamp : ℕ
  pub emitter_level : ℕ
  pub consumer_level : ℕ
  pub msg : List ℕ

-- `OS_LoggerTime_Handle_t`
pub record LogTime : Type 0 where
  pub hour : ℕ
  pub min : ℕ
  pub sec : ℕ

-- The logger library: the code with which `OS_Logger_CHECK_SELF` returns for this object, if it does,
-- the assignment to the timestamp object, and `OS_LoggerTimestamp_getTime`.
pub record LogClock (W : Type 0) : Type 0 where
  pub check_self : Option ℤ
  pub set_timestamp : ℕ → W → W
  pub get_time : ℕ → W → LogTime × W

-- `OS_Logger_ENTRY_MESSAGE_LENGTH`, where the message is longer.
unfoldable pub message_length : Widths → ℕ → ℕ
message_length sizes msg_len =
    if leb (suc sizes.entry_message_length) msg_len then sizes.entry_message_length else msg_len

-- What `sprintf` writes, without the terminator.
unfoldable pub log_line : Widths → LogEntry → LogTime → ℕ → List ℕ
log_line sizes entry tm msg_len =
    zero_padded sizes.id_length entry.id
    ++ (32
        ∷ (left_aligned sizes.name_length (c_string entry.name)
            ++ (32
                ∷ (zero_padded 2 tm.hour
                    ++ (58
                        ∷ (zero_padded 2 tm.min
                            ++ (58
                                ∷ (zero_padded 2 tm.sec
                                    ++ (32
                                        ∷ (right_aligned sizes.log_level_length entry.emitter_level
                                            ++ (32
                                                ∷ (right_aligned sizes.log_level_length
                                                      entry.consumer_level
                                                    ++ (32
                                                        ∷ (take msg_len (c_string entry.msg)
                                                            ++ (10 ∷ [])))))))))))))))

-- `_Log_format_convert`: the code and the buffer of the format. `sprintf` reads the name up to its
-- terminator, and writes one behind the line.
unfoldable pub convert :
    {W : Type 0}
    → OsErrors
    → Widths
    → LogClock W
    → Option LogEntry
    → List ℕ
    → W
    → Run (ℤ × List ℕ × W)
convert er sizes clock entry buffer w = elim clock.check_self [
  | some code ↦ ok (code, buffer, w)
  | none ↦ elim entry [
    | none ↦ ok (er.invalid_parameter, buffer, w)
    | some entry ↦ do
      let (tm, w') = clock.get_time 0 (clock.set_timestamp entry.timestamp w)
      msg_len ← strlen entry.msg
      name_len ← strlen entry.name
      buffer' ← blit buffer 0 (log_line sizes entry tm (message_length sizes msg_len) ++ (0 ∷ []))
      ok (os_success, buffer', w')
  ]
]
