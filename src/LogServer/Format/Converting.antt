-- ===== src/LogServer/Format/Converting.antt =====
-- When `_Log_format_convert` of custom_log_format.c writes a whole line, and when it leaves an array.
use demo_iot_app_hw.Base.{
  ℕ, suc, ◌+◌, ◌*◌, ◌≤◌, ◌<◌, ◌≡◌, ◌⊎◌, inl, inr, refl, sym, ap, ◌∙◌, none, some, List, [], ◌∷◌,
  ◌++◌, length, take, take_all, drop, leb, length-append, length-take, Bool-cases, ok, fault, arith,
}
use mathlib.Core.List.{append_assoc}
use demo_iot_app_hw.Base.Memory.{blit, blit-append, blit-fault}
use demo_iot_app_hw.Platform.Os.{os_success, OsErrors}
use demo_iot_app_hw.Config.Names.{
  strlen, strlen-append, strlen-IsCString, strlen-cases, c_string, IsCString, c_string-append,
}
use demo_iot_app_hw.LogServer.Printf.{left_aligned}
use demo_iot_app_hw.LogServer.Format.{Widths, LogEntry, LogClock, message_length, log_line, convert}
use demo_iot_app_hw.LogServer.Format.Columns.{
  columns, IsInColumns, log_line-columns, length-log_line, log_line_wide,
}

blit-string_fault :
    (line buffer : List ℕ) → length buffer ≤ length line → blit buffer 0 (line ++ (0 ∷ [])) ≡ fault
blit-string_fault line buffer long =
    let size = length-append line (0 ∷ []) in
    let size' : length (line ++ (0 ∷ [])) ≡ suc (length line) = omega arith in
    blit-fault buffer 0 (line ++ (0 ∷ [])) (omega arith)

-- The part of the text that is printed.
take-message_length :
    (sizes : Widths) (text : List ℕ)
    → take (message_length sizes (length text)) text ≡ take sizes.entry_message_length text
unfolding message_length
take-message_length sizes text =
    elim (Bool-cases (leb (suc sizes.entry_message_length) (length text))) [
      | inl longer ↦ rw longer refl
      | inr shorter ↦ rw shorter (
          take_all (length text) text (omega arith)
          ∙ sym (take_all sizes.entry_message_length text (ground arith)))
    ]

-- A write of a string and its terminator at the front of the buffer.
blit-string :
    (line buffer : List ℕ)
    → length line < length buffer
    → blit buffer 0 (line ++ (0 ∷ [])) ≡ ok (line ++ (0 ∷ drop (suc (length line)) buffer))
blit-string line buffer fits =
    let size = length-append line (0 ∷ []) in
    let size' : length (line ++ (0 ∷ [])) ≡ suc (length line) = omega arith in
    blit-append [] buffer (line ++ (0 ∷ [])) (omega arith)
    ∙ ap ok (rw size' (append_assoc line (0 ∷ []) (drop (suc (length line)) buffer)))

module _ {W : Type 0} (er : OsErrors) (sizes : Widths) (clock : LogClock W) where
  -- An entry whose values fit into their columns becomes one line, with the terminator behind it and
  -- the rest of the buffer as it was. Its columns show the id, the name, the time, both levels and the
  -- message, cut to OS_Logger_ENTRY_MESSAGE_LENGTH characters. This needs a name and a message with a
  -- terminator, and a buffer for the widths and the longest message.
  pub convert-columns :
      (entry : LogEntry) (label text more more' buffer : List ℕ) (w : W)
      → clock.check_self ≡ none
      → entry.name ≡ label ++ (0 ∷ more)
      → entry.msg ≡ text ++ (0 ∷ more')
      → IsCString label
      → IsCString text
      → IsInColumns sizes entry (clock.get_time 0 (clock.set_timestamp entry.timestamp w)).0
      → sizes.id_length
          + sizes.name_length
          + 2 * sizes.log_level_length
          + 15
          + sizes.entry_message_length
        ≤ length buffer
      → let (tm, w') = clock.get_time 0 (clock.set_timestamp entry.timestamp w) in
        (line : List ℕ) × (convert er sizes clock (some entry) buffer w
          ≡ ok (os_success, line ++ (0 ∷ drop (suc (length line)) buffer), w'))
        × (columns sizes line ≡ record {
          id = entry.id;
          name = left_aligned sizes.name_length label;
          hour = tm.hour;
          min = tm.min;
          sec = tm.sec;
          emitter_level = entry.emitter_level;
          consumer_level = entry.consumer_level;
          text = take sizes.entry_message_length text ++ (10 ∷ []);
        })
  unfolding convert
  convert-columns entry label text more more' buffer w self is_name is_msg h h' fits size =
      let (tm, w') = clock.get_time 0 (clock.set_timestamp entry.timestamp w) in
      let n = message_length sizes (length text) in
      let line = log_line sizes entry tm n in
      let named : c_string entry.name ≡ label = rw is_name (c_string-append label more h) in
      let said : c_string entry.msg ≡ text = rw is_msg (c_string-append text more' h') in
      let measured : strlen entry.msg ≡ ok (length text) =
        rw is_msg (strlen-append text more' h') in
      let measured' : strlen entry.name ≡ ok (length label) =
        rw is_name (strlen-append label more h) in
      let long = length-log_line sizes entry tm fits n in
      let cut = take-message_length sizes text in
      let short : length line < length buffer = omega (
        arith,
        long,
        ap length said,
        ap length cut,
        length-take n text,
        length-take sizes.entry_message_length text,
      ) in
      (
        line,
        rw (self, measured, measured', blit-string line buffer short) refl,
        log_line-columns sizes entry tm fits n ∙ rw (named, said, cut) refl,
      )

  -- A message without a terminator is read past its array: the length is only limited once `strlen`
  -- has returned. And the name is not limited: with one that is too long for the buffer, `sprintf`
  -- writes past the buffer.
  pub convert_fault :
      (entry : LogEntry) (buffer : List ℕ) (w : W)
      → clock.check_self ≡ none
      → IsCString entry.msg
        ⊎ (length buffer
            ≤ sizes.id_length + length (c_string entry.name) + 2 * sizes.log_level_length + 14)
      → convert er sizes clock (some entry) buffer w ≡ fault
  unfolding convert
  convert_fault entry buffer w self bad =
      let (tm, w') = clock.get_time 0 (clock.set_timestamp entry.timestamp w) in
      elim (strlen-cases entry.msg) [
        | inl lost ↦ rw (self, lost) refl
        | inr (n, measured) ↦ elim bad [
          | inl is ↦ rw (self, strlen-IsCString entry.msg is) refl
          | inr long ↦ elim (strlen-cases entry.name) [
            | inl lost ↦ rw (self, measured, lost) refl
            | inr (n', measured') ↦
                let line = log_line sizes entry tm (message_length sizes n) in
                let wide = log_line_wide sizes entry tm (message_length sizes n) in
                rw (self, measured, measured', blit-string_fault line buffer (omega arith)) refl
          ]
        ]
      ]
