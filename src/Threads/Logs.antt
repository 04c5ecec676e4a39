-- ===== src/Threads/Logs.antt =====
-- Threads/WriterLogs.cpp and Threads/ThreadLogs.cpp: log messages go to a buffer, and the buffer to a
-- file for each date. A string is the list of its characters, a date and a file's name are numbers.
-- Qt's and the system's part is an argument: the encoding of a string, the name of a date's file,
-- whether a file can be opened and how many bytes a write takes, which may depend on how many writes
-- there were before.
pub mod Thread
pub mod Writing
pub mod Journal
pub mod Run
pub mod Course
pub mod Complete
pub mod Endless
pub mod Short
mod Tests
use threader.Prelude.{
  ℕ, zero, suc, ◌+◌, Bool, true, false, ◌&&◌, ◌||◌, not, Option, none, some, List, [], ◌∷◌, ◌++◌,
  ◌==◌, ltb, leb, if◌then◌else◌, length, take, drop,
}
use threader.Prelude.Int.{ℤ, pos, negsuc, pos_part, ltb_ℤ}

-- `MessageLog`; `text` is what `toString` gives.
pub record Message : Type 0 where
  pub level : ℤ
  pub date : ℕ
  pub text : List ℕ

-- `failure` is the message Message3 as `logFlushBuffer` makes it.
pub record World : Type 0 where
  pub utf8 : List ℕ → List ℕ
  pub file_name : ℕ → ℕ
  pub can_open : ℕ → ℕ → Bool
  pub takes : ℕ → List ℕ → ℤ
  pub failure : Message

-- `file` is the name of the open log file; `files` are the contents of all files; `printed` went to the
-- console; `writes` counts the writes.
pub record Writer : Type 0 where
  pub level : ℤ
  pub to_console : Bool
  pub buffer : List ℕ
  pub date : ℕ
  pub file : Option ℕ
  pub files : ℕ → List ℕ
  pub printed : List Message
  pub writes : ℕ

-- 21.03.2014, the date of a new writer
abbrev pub zero_date : ℕ
zero_date = 2456738

unfoldable pub new_writer : Bool → ℤ → (ℕ → List ℕ) → Writer
new_writer to_console level files = record {
  level = level;
  to_console = to_console;
  buffer = [];
  date = zero_date;
  file = none;
  files = files;
  printed = [];
  writes = 0;
}

unfoldable pub append_file : (ℕ → List ℕ) → ℕ → List ℕ → ℕ → List ℕ
append_file files name bytes n = if n == name then files n ++ bytes else files n

-- `_currentLogFile.write`
unfoldable pub write_file : World → List ℕ → Writer → ℤ × Writer
write_file w bytes s = elim s.file [
  | none ↦ (negsuc 0, s)
  | some name ↦ (
    w.takes s.writes bytes,
    record s {
      files = append_file s.files name (take (pos_part (w.takes s.writes bytes)) bytes);
      writes = s.writes + 1;
    },
  )
]

-- `logRecreateFile`
unfoldable pub log_recreate_file : World → Writer → Writer
log_recreate_file w s =
    let name = w.file_name s.date in
    record s { file = if w.can_open s.writes name then some name else none }

-- "\r\n"
abbrev pub line_end : List ℕ
line_end = 13 ∷ 10 ∷ []

abbrev pub log_print : Message → Writer → Writer
log_print m s = if s.to_console then record s { printed = s.printed ++ (m ∷ []) } else s

abbrev pub append_buffer : Message → Writer → Writer
append_buffer m s = record s { buffer = s.buffer ++ m.text ++ line_end }

-- `doMessageLog` of a message, where `flush` is `logFlushBuffer`
unfoldable pub log_message : (Writer → Option Writer) → World → Message → Writer → Option Writer
log_message flush w m s =
    let s1 = log_print m s in
    if ltb_ℤ s.level m.level
    then some s
    else if s.date == m.date
    then some (append_buffer m s1)
    else elim (flush s1) [
      | none ↦ none
      | some s2 ↦ some (append_buffer m (log_recreate_file w (record s2 { date = m.date })))
    ]

abbrev pub is_empty : List ℕ → Bool
is_empty [] = true
is_empty (x ∷ xs) = false

abbrev pub is_open : Option ℕ → Bool
is_open none = false
is_open (some f) = true

-- The end of `logFlushBuffer`.
abbrev pub clear_buffer : Option Writer → Option Writer
clear_buffer none = none
clear_buffer (some s) = some (record s { buffer = [] })

-- `logFlushBuffer`, where `report` is `doMessageLog`
unfoldable pub flush_with : (Message → Writer → Option Writer) → World → Writer → Option Writer
flush_with report w s =
    let bytes = w.utf8 s.buffer in
    let (written, s1) = write_file w bytes s in
    let s2 = log_recreate_file w (record s1 { buffer = drop (pos_part written) s.buffer }) in
    let (again, s3) = write_file w (w.utf8 s2.buffer) s2 in
    if is_empty s.buffer || not (is_open s.file)
    then some s
    else if ltb_ℤ written (pos (length bytes))
    then clear_buffer (report w.failure s3)
    else clear_buffer (some s1)

-- `logFlushBuffer`; it and `doMessageLog` call each other, at most as often as the first argument says.
unfoldable pub log_flush_buffer : ℕ → World → Writer → Option Writer
log_flush_buffer zero w s = flush_with (λ m s3. none) w s
log_flush_buffer (suc n) w s = flush_with (log_message (log_flush_buffer n w) w) w s

-- `doMessageLog`
unfoldable pub do_message_log : ℕ → World → Message → Writer → Option Writer
do_message_log n w m s = log_message (log_flush_buffer n w) w m s

-- `MessageWriteToFile`
pub record FileMessage : Type 0 where
  pub file_name : ℕ
  pub text : List ℕ
  pub truncate : Bool

-- `doMessageRewriteFile`; a file that is opened with Truncate is empty.
unfoldable pub do_message_rewrite_file : World → FileMessage → Writer → Writer
do_message_rewrite_file w m s =
    let bytes = w.utf8 m.text in
    let files = if m.truncate then (λ n. if n == m.file_name then [] else s.files n) else s.files in
    if w.can_open s.writes m.file_name
    then record s {
      files = append_file files m.file_name (take (pos_part (w.takes s.writes bytes)) bytes);
      writes = s.writes + 1;
    }
    else s

-- `setLevel`
unfoldable pub set_level : ℤ → Writer → Writer
set_level level s = record s { level = level }
