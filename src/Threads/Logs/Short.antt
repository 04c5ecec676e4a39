-- ===== src/Threads/Logs/Short.antt =====
-- The log's writer (Threads/WriterLogs.cpp) where a write takes less than it is given.
use threader.Prelude.{
  ℕ, suc, ◌+◌, ◌<◌, ◌≡◌, refl, ap, ◌∙◌, true, false, some, List, [], ◌++◌, length, take, drop,
  append_assoc, arith, take-append-drop, take_all, lt→ltb,
}
use threader.Prelude.Int.{ℤ, pos, ltb_ℤ, pos_part}
use threader.Threads.Logs.{
  Message, World, Writer, write_file, append_file, log_recreate_file, log_message, log_print,
  flush_with, log_flush_buffer, is_empty, is_open,
}
use threader.Threads.Logs.Endless.{again}

first_write :
    (k : ℕ) (w : World) (s : Writer)
    → s.file ≡ some (w.file_name s.date)
    → w.takes s.writes (w.utf8 s.buffer) ≡ pos k
    → write_file w (w.utf8 s.buffer) s ≡ (
      pos k,
      record s {
        files = append_file s.files (w.file_name s.date) (take k (w.utf8 s.buffer));
        writes = s.writes + 1;
      },
    )
unfolding write_file
first_write k w s f t = ground arith

-- The writer after both writes.
abbrev both : ℕ → World → Writer → Writer
both k w s =
    let name = w.file_name s.date in
    record s {
      buffer = drop k s.buffer;
      file = some name;
      files =
          append_file (append_file s.files name (take k (w.utf8 s.buffer))) name
            (w.utf8 (drop k s.buffer));
      writes = s.writes + 1 + 1;
    }

second_write :
    (k : ℕ) (w : World) (s : Writer)
    → s.file ≡ some (w.file_name s.date)
    → w.takes s.writes (w.utf8 s.buffer) ≡ pos k
    → w.can_open (s.writes + 1) (w.file_name s.date) ≡ true
    → w.takes (s.writes + 1) (w.utf8 (drop k s.buffer)) ≡ pos (length (w.utf8 (drop k s.buffer)))
    → again w s ≡ log_print w.failure (both k w s)
unfolding log_recreate_file write_file
second_write k w s f t o t2 =
    let b2 = w.utf8 (drop k s.buffer) in
    let whole = take_all (length b2) b2 (omega arith) in
    let step = λ (r : ℤ × Writer). log_print w.failure (
      (write_file w (w.utf8 (drop (pos_part (r.0)) s.buffer))
        (log_recreate_file w (record (r.1) { buffer = drop (pos_part (r.0)) s.buffer }))).1) in
    ap step (first_write k w s f t) ∙ ground (arith, o, t2, whole)

both_file :
    (k : ℕ) (w : World) (s : Writer)
    → w.utf8 (drop k s.buffer) ≡ drop k (w.utf8 s.buffer)
    → (both k w s).files (w.file_name s.date) ≡ s.files (w.file_name s.date) ++ w.utf8 s.buffer
unfolding append_file
both_file k w s u =
    let b = w.utf8 s.buffer in
    let old = s.files (w.file_name s.date) in
    let pieces : (old ++ take k b) ++ w.utf8 (drop k s.buffer) ≡ old ++ b =
      append_assoc old (take k b) (w.utf8 (drop k s.buffer))
      ∙ ap (λ (t : List ℕ). old ++ (take k b ++ t)) u
      ∙ ap (λ (t : List ℕ). old ++ t) (take-append-drop k b) in
    ground (arith, pieces)

reported_again :
    (n : ℕ) (w : World) (s : Writer)
    → ltb_ℤ (write_file w (w.utf8 s.buffer) s).0 (pos (length (w.utf8 s.buffer))) ≡ true
    → is_empty s.buffer ≡ false
    → is_open s.file ≡ true
    → ltb_ℤ (again w s).level w.failure.level ≡ false
    → (again w s).date ≡ w.failure.date
    → log_flush_buffer (suc n) w s ≡ some (record (again w s) { buffer = [] })
unfolding log_flush_buffer flush_with log_message
reported_again n w s short e o lv d = ground arith

printed_kept :
    (m : Message) (s : Writer)
    → ((log_print m s).level ≡ s.level)
      × ((log_print m s).date ≡ s.date)
      × ((log_print m s).files ≡ s.files)
printed_kept m s = ground arith

-- A write that is short by some bytes, then one that takes the rest, on the same date: the file gets all
-- of the buffer where removing `k` characters removes the `k` bytes that were written, and the buffer
-- is empty; Message3 is in neither.
pub log_flush_buffer-short :
    (n k : ℕ) (w : World) (s : Writer)
    → s.file ≡ some (w.file_name s.date)
    → is_empty s.buffer ≡ false
    → w.takes s.writes (w.utf8 s.buffer) ≡ pos k
    → k < length (w.utf8 s.buffer)
    → w.can_open (s.writes + 1) (w.file_name s.date) ≡ true
    → w.utf8 (drop k s.buffer) ≡ drop k (w.utf8 s.buffer)
    → w.takes (s.writes + 1) (w.utf8 (drop k s.buffer)) ≡ pos (length (w.utf8 (drop k s.buffer)))
    → ltb_ℤ s.level w.failure.level ≡ false
    → s.date ≡ w.failure.date
    → (t : Writer) × (log_flush_buffer (suc n) w s ≡ some t)
      × (t.files (w.file_name s.date) ≡ s.files (w.file_name s.date) ++ w.utf8 s.buffer)
      × (t.buffer ≡ [])
log_flush_buffer-short n k w s f e t1 lt o u t2 lv d =
    let second = second_write k w s f t1 o t2 in
    let short =
      ap (λ (r : ℤ × Writer). ltb_ℤ (r.0) (pos (length (w.utf8 s.buffer)))) (first_write k w s f t1)
      ∙ lt→ltb (k + 0) (length (w.utf8 s.buffer) + 0) (omega arith) in
    let done = log_print w.failure (both k w s) in
    let (kept_level, kept_date, kept_files) = printed_kept w.failure (both k w s) in
    let level_of : (again w s).level ≡ s.level = ap (λ (x : Writer). x.level) second ∙ kept_level in
    let date_of : (again w s).date ≡ s.date = ap (λ (x : Writer). x.date) second ∙ kept_date in
    (
      record done { buffer = [] },
      reported_again n w s short e (ap is_open f)
            (ap (λ (x : ℤ). ltb_ℤ x w.failure.level) level_of ∙ lv) (date_of ∙ d)
          ∙ ap (λ (x : Writer). some (record x { buffer = [] })) second,
      ap (λ (fs : ℕ → List ℕ). fs (w.file_name s.date)) kept_files ∙ both_file k w s u,
      refl,
    )
