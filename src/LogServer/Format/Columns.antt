-- ===== src/LogServer/Format/Columns.antt =====
-- The columns of the line that custom_log_format.c writes, and what they show.
use demo_iot_app_hw.Base.{
  ℕ, zero, suc, ◌+◌, ◌*◌, ◌^◌, ◌≤◌, ◌<◌, min, ◌≡◌, refl, sym, ap, ◌∙◌, List, [], ◌∷◌, ◌++◌, length,
  take, drop, take-append, length-append, length-take, arith,
}
use demo_iot_app_hw.Config.Names.{c_string}
use demo_iot_app_hw.LogServer.Printf.{
  left_aligned, number_from, number_from-zero_padded, number_from-right_aligned, length-zero_padded,
  length-right_aligned, length-left_aligned, zero_padded_wide, right_aligned_wide,
  left_aligned_wide,
}
use demo_iot_app_hw.LogServer.Format.{Widths, LogEntry, LogTime, log_line}

-- The columns of a line. The name comes with the blanks behind it, and the text with the newline.
pub record Columns : Type 0 where
  pub id : ℕ
  pub name : List ℕ
  pub hour : ℕ
  pub min : ℕ
  pub sec : ℕ
  pub emitter_level : ℕ
  pub consumer_level : ℕ
  pub text : List ℕ

-- A reader that knows the widths.
unfoldable pub columns : Widths → List ℕ → Columns
columns sizes line1 =
    let line2 = drop (suc sizes.id_length) line1 in
    let line3 = drop (suc sizes.name_length) line2 in
    let line4 = drop 3 line3 in
    let line5 = drop 3 line4 in
    let line6 = drop 3 line5 in
    let line7 = drop (suc sizes.log_level_length) line6 in
    let line8 = drop (suc sizes.log_level_length) line7 in
    record {
      id = number_from 0 (take sizes.id_length line1);
      name = take sizes.name_length line2;
      hour = number_from 0 (take 2 line3);
      min = number_from 0 (take 2 line4);
      sec = number_from 0 (take 2 line5);
      emitter_level = number_from 0 (take sizes.log_level_length line6);
      consumer_level = number_from 0 (take sizes.log_level_length line7);
      text = line8;
    }

-- Each value fits into its column.
pub record IsInColumns (sizes : Widths) (entry : LogEntry) (tm : LogTime) : Type 0 where
  pub id_some : 1 ≤ sizes.id_length
  pub level_some : 1 ≤ sizes.log_level_length
  pub id : entry.id < 10 ^ sizes.id_length
  pub name : length (c_string entry.name) ≤ sizes.name_length
  pub hour : tm.hour < 100
  pub min : tm.min < 100
  pub sec : tm.sec < 100
  pub emitter_level : entry.emitter_level < 10 ^ sizes.log_level_length
  pub consumer_level : entry.consumer_level < 10 ^ sizes.log_level_length

take-column :
    (k : ℕ) (field : List ℕ) (c : ℕ) (rest : List ℕ)
    → length field ≡ k
    → take k (field ++ (c ∷ rest)) ≡ field
take-column k field c rest fills =
    ap (λ k. take k (field ++ (c ∷ rest))) (sym fills) ∙ take-append field (c ∷ rest)

drop-column :
    (k : ℕ) (field : List ℕ) (c : ℕ) (rest : List ℕ)
    → length field ≡ k
    → drop (suc k) (field ++ (c ∷ rest)) ≡ rest
drop-column zero [] c rest fills = refl
drop-column (suc k) [] c rest fills = absurd (omega arith)
drop-column zero (x ∷ field) c rest fills = absurd (omega arith)
drop-column (suc k) (x ∷ field) c rest fills = drop-column k field c rest (omega arith)

-- What the columns of a line show.
abbrev pub shown : Widths → LogEntry → LogTime → ℕ → Columns
shown sizes entry tm msg_len = record {
  id = entry.id;
  name = left_aligned sizes.name_length (c_string entry.name);
  hour = tm.hour;
  min = tm.min;
  sec = tm.sec;
  emitter_level = entry.emitter_level;
  consumer_level = entry.consumer_level;
  text = take msg_len (c_string entry.msg) ++ (10 ∷ []);
}

module _ (sizes : Widths) (entry : LogEntry) (tm : LogTime)
    (fits : IsInColumns sizes entry tm) where
  pub log_line-columns :
      (msg_len : ℕ) → columns sizes (log_line sizes entry tm msg_len) ≡ shown sizes entry tm msg_len
  unfolding columns log_line
  log_line-columns msg_len =
      let id = length-zero_padded sizes.id_length entry.id fits.id_some fits.id in
      let name = length-left_aligned sizes.name_length (c_string entry.name) fits.name in
      let hour = length-zero_padded 2 tm.hour (omega arith) fits.hour in
      let min = length-zero_padded 2 tm.min (omega arith) fits.min in
      let sec = length-zero_padded 2 tm.sec (omega arith) fits.sec in
      let emitter =
        length-right_aligned sizes.log_level_length entry.emitter_level fits.level_some
          fits.emitter_level in
      let consumer =
        length-right_aligned sizes.log_level_length entry.consumer_level fits.level_some
          fits.consumer_level in
      simp (
        drop-column _ _ _ _ id,
        drop-column _ _ _ _ name,
        drop-column _ _ _ _ hour,
        drop-column _ _ _ _ min,
        drop-column _ _ _ _ sec,
        drop-column _ _ _ _ emitter,
        drop-column _ _ _ _ consumer,
        take-column _ _ _ _ id,
        take-column _ _ _ _ name,
        take-column _ _ _ _ hour,
        take-column _ _ _ _ min,
        take-column _ _ _ _ sec,
        take-column _ _ _ _ emitter,
        take-column _ _ _ _ consumer,
        number_from-zero_padded,
        number_from-right_aligned,
      )

  pub length-log_line :
      (msg_len : ℕ)
      → length (log_line sizes entry tm msg_len)
        ≡ sizes.id_length
          + sizes.name_length
          + 2 * sizes.log_level_length
          + 14
          + min msg_len (length (c_string entry.msg))
  unfolding log_line
  length-log_line msg_len =
      let id = length-zero_padded sizes.id_length entry.id fits.id_some fits.id in
      let name = length-left_aligned sizes.name_length (c_string entry.name) fits.name in
      let hour = length-zero_padded 2 tm.hour (omega arith) fits.hour in
      let min = length-zero_padded 2 tm.min (omega arith) fits.min in
      let sec = length-zero_padded 2 tm.sec (omega arith) fits.sec in
      let emitter =
        length-right_aligned sizes.log_level_length entry.emitter_level fits.level_some
          fits.emitter_level in
      let consumer =
        length-right_aligned sizes.log_level_length entry.consumer_level fits.level_some
          fits.consumer_level in
      let text = length-take msg_len (c_string entry.msg) in
      simp (length-append, id, name, hour, min, sec, emitter, consumer, text) (omega arith)

pub log_line_wide :
    (sizes : Widths) (entry : LogEntry) (tm : LogTime) (msg_len : ℕ)
    → sizes.id_length + length (c_string entry.name) + 2 * sizes.log_level_length + 14
      ≤ length (log_line sizes entry tm msg_len)
unfolding log_line
log_line_wide sizes entry tm msg_len =
    let id = zero_padded_wide sizes.id_length entry.id in
    let name = left_aligned_wide sizes.name_length (c_string entry.name) in
    let hour = zero_padded_wide 2 tm.hour in
    let min = zero_padded_wide 2 tm.min in
    let sec = zero_padded_wide 2 tm.sec in
    let emitter = right_aligned_wide sizes.log_level_length entry.emitter_level in
    let consumer = right_aligned_wide sizes.log_level_length entry.consumer_level in
    simp length-append (omega arith)
