-- ===== src/Threads/Logs/Thread.antt =====
-- Threads/ThreadLogs.cpp: the thread that writes the log. Times are ticks in milliseconds; the messages
-- that the thread logs of itself are arguments.
use threader.Prelude.{
  ℕ, ◌+◌, Bool, ◌&&◌, not, Option, none, some, List, [], ◌∷◌, ◌++◌, ◌==◌, ltb, if◌then◌else◌,
}
use threader.Prelude.Int.{ℤ, pos, ltb_ℤ}
use threader.Threads.Logs.{
  World, Writer, Message, FileMessage, log_flush_buffer, do_message_log, do_message_rewrite_file,
  set_level, is_empty, new_writer,
}

-- `ThreadLogs`; `posted` are the messages posted to the subscriber.
pub record Logs : Type 0 where
  pub writer : Writer
  pub next_write : ℕ
  pub has_subscriber : Bool
  pub posted : List Message

-- `logFlushBuffer` of ThreadLogs
unfoldable pub flush : ℕ → World → ℕ → Logs → Option Logs
flush n w now l = elim (log_flush_buffer n w l.writer) [
  | none ↦ none
  | some s ↦ some (record l { writer = s; next_write = now + 1000 })
]

-- `doMessageLog` of a ThreadLogs: a change of the date calls its `logFlushBuffer`.
unfoldable pub do_message : ℕ → World → ℕ → Message → Logs → Option Logs
do_message n w now m l =
    let flushes = not (ltb_ℤ l.writer.level m.level) && not (l.writer.date == m.date) in
    elim (do_message_log n w m l.writer) [
      | none ↦ none
      | some s ↦
          some (record l { writer = s; next_write = if flushes then now + 1000 else l.next_write })
    ]

-- `logCheckAndFlushBuffer`, and `onIdle`
unfoldable pub check_and_flush_buffer : ℕ → World → ℕ → Logs → Option Logs
check_and_flush_buffer n w now l =
    if is_empty l.writer.buffer
    then some l
    else if ltb now l.next_write
    then some l
    else flush n w now l

-- The messages that `processMessage` tells apart.
pub data ThreadMessage : Type 0 where
  log : Message → ThreadMessage
  write_to_file : FileMessage → ThreadMessage
  log_level : ℤ → ThreadMessage
  other : ThreadMessage

abbrev pub post : Message → Logs → Logs
post m l =
    if l.has_subscriber && not (ltb_ℤ l.writer.level m.level)
    then record l { posted = l.posted ++ (m ∷ []) }
    else l

unfoldable pub handle : ℕ → World → ℕ → ThreadMessage → Logs → Option Logs
handle n w now (log m) l = elim (do_message n w now m l) [ none ↦ none | some k ↦ some (post m k) ]
handle n w now (write_to_file m) l =
    some (record l { writer = do_message_rewrite_file w m l.writer })
handle n w now (log_level level) l = some (record l { writer = set_level level l.writer })
handle n w now other l = some l

-- `processMessage`
unfoldable pub process_message : ℕ → World → ℕ → ThreadMessage → Logs → Option Logs
process_message n w now m l = elim (handle n w now m l) [
  | none ↦ none
  | some k ↦ check_and_flush_buffer n w now k
]

-- `onThreadFinished`, with the message Message2
unfoldable pub on_thread_finished : ℕ → World → ℕ → Message → Logs → Option Logs
on_thread_finished n w now m l = elim (do_message n w now m l) [
  | none ↦ none
  | some k ↦ elim (flush n w now k) [
    | none ↦ none
    | some j ↦ some (record j { writer = record (j.writer) { file = none } })
  ]
]

-- The constructor, whose level is 9.
unfoldable pub new_logs : Bool → Bool → ℕ → (ℕ → List ℕ) → Logs
new_logs to_console has_subscriber now files = record {
  writer = new_writer to_console (pos 9) files;
  next_write = now + 1000;
  has_subscriber = has_subscriber;
  posted = [];
}

-- `onThreadStarted` with Message0, and `onThreadFinishing` with Message1
unfoldable pub on_thread_started : ℕ → World → ℕ → Message → Logs → Option Logs
on_thread_started n w now m l = do_message n w now m l

unfoldable pub on_thread_finishing : ℕ → World → ℕ → Message → Logs → Option Logs
on_thread_finishing n w now m l = do_message n w now m l
