-- ===== src/Threads/Logs/Journal.antt =====
-- Messages of the log against the files that they belong to (Threads/WriterLogs.cpp), where files can
-- be opened and take all that is written.
use threader.Prelude.{
  ℕ, ◌≡◌, ◌≢◌, ap, ◌∙◌, sym, Bool, true, false, Option, some, List, [], ◌++◌, ◌==◌, if◌then◌else◌,
  append-nil, append_assoc, arith, Bool-cases, inl, inr,
}
use threader.Prelude.Int.{ltb_ℤ}
use threader.Threads.Logs.{
  Message, World, Writer, write_file, log_recreate_file, log_message, log_print, append_buffer,
  do_message_log, line_end, zero_date,
}
use threader.Threads.Logs.Writing.{
  IsGood, IsSettled, pending, view, flushed, part, log_flush_buffer-flushed, view-flushed,
  pending_empty,
}

-- The writer whose date's file is open and empty of pending text.
abbrev moved : World → Message → Writer → Writer
moved w m s = log_recreate_file w (record (flushed w s) { date = m.date })

-- What a message leaves.
abbrev pub logged : World → Message → Writer → Writer
logged w m s =
    if ltb_ℤ s.level m.level
    then s
    else append_buffer m (if s.date == m.date then log_print m s else moved w m (log_print m s))

pub do_message_log-logged :
    (n : ℕ) (w : World) (m : Message) (s : Writer)
    → IsGood w
    → do_message_log n w m s ≡ some (logged w m s)
unfolding do_message_log log_message
do_message_log-logged n w m s g = ground (arith, log_flush_buffer-flushed n w (log_print m s) g)

pub flushed_empty : (w : World) (s : Writer) → IsSettled w s → (flushed w s).buffer ≡ []
unfolding write_file
flushed_empty w s (inl r) = ground arith
flushed_empty w s (inr r) = ground arith

append_if :
    (b : Bool) (x u v : List ℕ)
    → x ++ (if b then u ++ v else []) ≡ (x ++ (if b then u else [])) ++ (if b then v else [])
append_if true x u v = sym (append_assoc x u v)
append_if false x u v = sym (append-nil (x ++ []))

view-append_buffer :
    (w : World) (m : Message) (s : Writer) (n : ℕ)
    → IsGood w
    → s.file ≡ some (w.file_name m.date)
    → view w (append_buffer m s) n
      ≡ view w s n ++ (if n == w.file_name m.date then w.utf8 (m.text ++ line_end) else [])
view-append_buffer w m s n g r =
    let name = w.file_name m.date in
    let line = m.text ++ line_end in
    ap (λ (b : List ℕ). s.files n ++ pending w s.file b n) (append_assoc s.buffer m.text line_end)
    ∙ ap (λ (f : Option ℕ). s.files n ++ pending w f (s.buffer ++ line) n) r
    ∙ ap (λ (t : List ℕ). s.files n ++ (if n == name then t else [])) (g.utf8_append s.buffer line)
    ∙ append_if (n == name) (s.files n) (w.utf8 s.buffer) (w.utf8 line)
    ∙ ap
        (λ (f : Option ℕ).
          (s.files n ++ pending w f s.buffer n) ++ (if n == name then w.utf8 line else []))
        (sym r)

view-moved :
    (w : World) (m : Message) (s : Writer) (n : ℕ)
    → IsGood w
    → IsSettled w s
    → view w (moved w m s) n ≡ view w s n
unfolding log_recreate_file
view-moved w m s n g i = grind (
  arith,
  view-flushed w s n g,
  flushed_empty w s i,
  pending_empty w (flushed w s).file n g,
  g.opens (flushed w s).writes (w.file_name m.date),
  g.utf8_empty,
)

moved_file :
    (w : World) (m : Message) (s : Writer)
    → IsGood w
    → (moved w m s).file ≡ some (w.file_name m.date)
unfolding log_recreate_file
moved_file w m s g = ground (arith, g.opens (flushed w s).writes (w.file_name m.date))

-- The writer before the line is appended.
abbrev prepared : World → Message → Writer → Writer
prepared w m s = if s.date == m.date then log_print m s else moved w m (log_print m s)

prepared_file :
    (w : World) (m : Message) (s : Writer)
    → IsGood w
    → IsSettled w s
    → m.date ≢ zero_date
    → (prepared w m s).file ≡ some (w.file_name m.date)
prepared_file w m s g (inl r) z = ground (arith, moved_file w m (log_print m s) g, ap w.file_name)
prepared_file w m s g (inr r) z = ground (arith, moved_file w m (log_print m s) g)

view-prepared :
    (w : World) (m : Message) (s : Writer) (n : ℕ)
    → IsGood w
    → IsSettled w s
    → view w (prepared w m s) n ≡ view w s n
view-prepared w m s n g (inl r) = ground (arith, view-moved w m (log_print m s) n g)
view-prepared w m s n g (inr r) = ground (arith, view-moved w m (log_print m s) n g)

-- A message adds its line to the file of its date, when its level is accepted, and nothing else.
pub view-logged :
    (w : World) (m : Message) (s : Writer) (n : ℕ)
    → IsGood w
    → IsSettled w s
    → m.date ≢ zero_date
    → view w (logged w m s) n ≡ view w s n ++ part w s.level m n
view-logged w m s n g i z = elim (Bool-cases (ltb_ℤ s.level m.level)) [
  | inl e ↦ ground (arith, append-nil (view w s n))
  | inr e ↦ ground (
    arith,
    view-append_buffer w m (prepared w m s) n g (prepared_file w m s g i z),
    view-prepared w m s n g i,
  )
]

pub flushed-IsSettled : (w : World) (s : Writer) → IsSettled w s → IsSettled w (flushed w s)
unfolding write_file
flushed-IsSettled w s (inl r) = ground arith
flushed-IsSettled w s (inr r) = ground arith

pub logged-IsSettled :
    (w : World) (m : Message) (s : Writer)
    → IsGood w
    → IsSettled w s
    → m.date ≢ zero_date
    → IsSettled w (logged w m s)
unfolding log_recreate_file write_file
logged-IsSettled w m s g (inl r) z = ground (arith, prepared_file w m s g (inl r) z, ap w.file_name)
logged-IsSettled w m s g (inr r) z = ground (arith, prepared_file w m s g (inr r) z, ap w.file_name)

pub logged_level : (w : World) (m : Message) (s : Writer) → (logged w m s).level ≡ s.level
unfolding log_recreate_file write_file
logged_level w m s = ground arith

pub flushed_level : (w : World) (s : Writer) → (flushed w s).level ≡ s.level
unfolding write_file
flushed_level w s = ground arith
