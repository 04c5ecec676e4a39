-- ===== src/Threads/Logs/Endless.antt =====
-- The log's writer (Threads/WriterLogs.cpp) on a full disk.
use threader.Prelude.{
  ℕ, zero, suc, ◌+◌, ◌<◌, ◌≡◌, ap, ◌∙◌, true, false, none, List, ◌==◌, length, drop, arith,
}
use threader.Prelude.Int.{ℤ, pos, ltb_ℤ, pos_part}
use threader.Threads.Logs.{
  World, Writer, write_file, log_recreate_file, log_message, log_print, flush_with,
  log_flush_buffer, is_empty, is_open,
}

-- A full disk: files can be opened and take nothing.
pub record IsFull (w : World) : Type 0 where
  pub opens : (n name : ℕ) → w.can_open n name ≡ true
  pub takes_none : (n : ℕ) (bytes : List ℕ) → w.takes n bytes ≡ pos 0

-- A writer with something to write, at a time with another date than its file.
pub record IsLate (w : World) (s : Writer) : Type 0 where
  pub something : is_empty s.buffer ≡ false
  pub encoded : 0 < length (w.utf8 s.buffer)
  pub opened : is_open s.file ≡ true
  pub reported : ltb_ℤ s.level w.failure.level ≡ false
  pub other_date : s.date == w.failure.date ≡ false

-- The writer that the recursive call gets.
abbrev pub again : World → Writer → Writer
again w s =
    let (written, s1) = write_file w (w.utf8 s.buffer) s in
    let s2 = log_recreate_file w (record s1 { buffer = drop (pos_part written) s.buffer }) in
    log_print w.failure ((write_file w (w.utf8 s2.buffer) s2).1)

again_kept :
    (w : World) (s : Writer)
    → IsFull w
    → ((again w s).buffer ≡ s.buffer)
      × ((again w s).level ≡ s.level)
      × ((again w s).date ≡ s.date)
      × (is_open (again w s).file ≡ true)
unfolding write_file log_recreate_file
again_kept w s f = ground (
  arith,
  f.takes_none s.writes (w.utf8 s.buffer),
  λ (n : ℕ). f.opens n (w.file_name s.date),
  f.opens s.writes (w.file_name s.date),
  f.opens (s.writes + 1) (w.file_name s.date),
)

again-IsLate : (w : World) (s : Writer) → IsFull w → IsLate w s → IsLate w (again w s)
again-IsLate w s f l =
    let (b, v, d, o) = again_kept w s f in
    record {
      something = ap is_empty b ∙ l.something;
      encoded = omega (arith, l.encoded, ap (λ (t : List ℕ). length (w.utf8 t)) b);
      opened = o;
      reported = ap (λ (t : ℤ). ltb_ℤ t w.failure.level) v ∙ l.reported;
      other_date = ap (λ (t : ℕ). t == w.failure.date) d ∙ l.other_date;
    }

short_now :
    (w : World) (s : Writer)
    → IsFull w
    → IsLate w s
    → ltb_ℤ (write_file w (w.utf8 s.buffer) s).0 (pos (length (w.utf8 s.buffer))) ≡ true
unfolding write_file
short_now w s f l = ground (arith, f.takes_none s.writes (w.utf8 s.buffer), l.encoded)

-- Where a date ends on a full disk and Message3 is accepted, `logFlushBuffer` and `doMessageLog` call
-- each other without end: no depth of the calls is enough.
pub log_flush_buffer-none :
    (n : ℕ) (w : World) (s : Writer) → IsFull w → IsLate w s → log_flush_buffer n w s ≡ none
unfolding log_flush_buffer flush_with log_message
log_flush_buffer-none zero w s f l = ground (arith, short_now w s f l, l.something, l.opened)
log_flush_buffer-none (suc n) w s f l = ground (
  arith,
  short_now w s f l,
  l.something,
  l.opened,
  l.reported,
  l.other_date,
  log_flush_buffer-none n w (again w s) f (again-IsLate w s f l),
  again_kept w s f,
)
