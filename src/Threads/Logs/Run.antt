-- ===== src/Threads/Logs/Run.antt =====
-- The log's thread (Threads/ThreadLogs.cpp) from its start to its end, against a journal of what each
-- file should hold.
use threader.Prelude.{
  ℕ, ◌+◌, ◌≤◌, ◌≡◌, ◌≢◌, refl, ap, ◌∙◌, not, Option, none, some, List, [], ◌∷◌, ◌++◌, ◌==◌, ltb,
  if◌then◌else◌, append-nil, arith, ◌&&◌, if_either,
}
use threader.Prelude.Int.{ℤ, ltb_ℤ}
use threader.Threads.Logs.{
  Message, World, Writer, FileMessage, is_empty, zero_date, do_message_rewrite_file, append_file,
}
use threader.Threads.Logs.Thread.{
  Logs, ThreadMessage, log, write_to_file, log_level, other, flush, do_message,
  check_and_flush_buffer, process_message,
}
use threader.Threads.Logs.Writing.{
  IsGood, IsSettled, view, flushed, part, log_flush_buffer-flushed, view-flushed,
}
use threader.Threads.Logs.Journal.{
  logged, do_message_log-logged, view-logged, flushed-IsSettled, logged-IsSettled, logged_level,
  flushed_level,
}

-- The operation ends, with these contents of the file `n` and the buffer, and with this level.
abbrev pub Leaves : World → ℕ → ℤ → List ℕ → Option Logs → Type 0
Leaves w n level bytes o =
    (k : Logs) × (o ≡ some k)
    × IsSettled w k.writer
    × (k.writer.level ≡ level)
    × (view w k.writer n ≡ bytes)

pub flush-Leaves :
    (d : ℕ) (w : World) (now : ℕ) (l : Logs) (n : ℕ)
    → IsGood w
    → IsSettled w l.writer
    → Leaves w n l.writer.level (view w l.writer n) (flush d w now l)
unfolding flush
flush-Leaves d w now l n g i = (
  record l { writer = flushed w l.writer; next_write = now + 1000 },
  ap
      (λ (o : Option Writer). elim o as (λ x. Option Logs) [
        | none ↦ none
        | some s ↦ some (record l { writer = s; next_write = now + 1000 })
      ])
      (log_flush_buffer-flushed d w l.writer g),
  flushed-IsSettled w l.writer i,
  flushed_level w l.writer,
  view-flushed w l.writer n g,
)

pub check-Leaves :
    (d : ℕ) (w : World) (now : ℕ) (l : Logs) (n : ℕ)
    → IsGood w
    → IsSettled w l.writer
    → Leaves w n l.writer.level (view w l.writer n) (check_and_flush_buffer d w now l)
unfolding check_and_flush_buffer
check-Leaves d w now l n g i =
    let P = Leaves w n l.writer.level (view w l.writer n) in
    let stays : P (some l) = (l, refl, i, refl, refl) in
    if_either P (is_empty l.writer.buffer) (some l) _ stays
      (if_either P (ltb now l.next_write) (some l) _ stays (flush-Leaves d w now l n g i))

pub do_message-Leaves :
    (d : ℕ) (w : World) (now : ℕ) (m : Message) (l : Logs) (n : ℕ)
    → IsGood w
    → IsSettled w l.writer
    → m.date ≢ zero_date
    → Leaves w n l.writer.level
        (view w l.writer n ++ part w l.writer.level m n)
        (do_message d w now m l)
unfolding do_message
do_message-Leaves d w now m l n g i z =
    let flushes = not (ltb_ℤ l.writer.level m.level) && not (l.writer.date == m.date) in
    let time = if flushes then now + 1000 else l.next_write in
    (
      record l { writer = logged w m l.writer; next_write = time },
      ap
          (λ (o : Option Writer). elim o as (λ x. Option Logs) [
            | none ↦ none
            | some s ↦ some (record l { writer = s; next_write = time })
          ])
          (do_message_log-logged d w m l.writer g),
      logged-IsSettled w m l.writer g i z,
      logged_level w m l.writer,
      view-logged w m l.writer n g i z,
    )

-- What the thread is given: a message, or time with none, or a call of the public `flush`. The number
-- is the time.
pub data Event : Type 0 where
  receive : ℕ → ThreadMessage → Event
  idle : ℕ → Event
  flushes : ℕ → Event

-- `onIdle` is `logCheckAndFlushBuffer`.
unfoldable pub react : ℕ → World → Event → Logs → Option Logs
react d w (receive now m) l = process_message d w now m l
react d w (idle now) l = check_and_flush_buffer d w now l
react d w (flushes now) l = flush d w now l

unfoldable pub run : ℕ → World → List Event → Logs → Option Logs
run d w [] l = some l
run d w (e ∷ es) l = elim (react d w e l) [ none ↦ none | some k ↦ run d w es k ]

-- What an event adds to the file `n` at a level, and the level after it.
abbrev pub entry : World → ℤ → Event → ℕ → List ℕ
entry w level (receive now (log m)) n = part w level m n
entry w level (receive now (write_to_file m)) n = []
entry w level (receive now (log_level v)) n = []
entry w level (receive now other) n = []
entry w level (idle now) n = []
entry w level (flushes now) n = []

abbrev pub next_level : ℤ → Event → ℤ
next_level level (receive now (log m)) = level
next_level level (receive now (write_to_file m)) = level
next_level level (receive now (log_level v)) = v
next_level level (receive now other) = level
next_level level (idle now) = level
next_level level (flushes now) = level

-- The lines of the accepted messages of the dates of the file `n`, in order.
unfoldable pub journal : World → ℤ → List Event → ℕ → List ℕ
journal w level [] n = []
journal w level (e ∷ es) n = entry w level e n ++ journal w (next_level level e) es n

unfoldable pub last_level : ℤ → List Event → ℤ
last_level level [] = level
last_level level (e ∷ es) = last_level (next_level level e) es

-- No message has the date of a new writer, and no other text is written to the file `n`.
abbrev pub IsPlain : ℕ → Event → Type 0
IsPlain n (receive now (log m)) = m.date ≢ zero_date
IsPlain n (receive now (write_to_file m)) = m.file_name ≢ n
IsPlain n (receive now (log_level v)) = 0 ≤ 0
IsPlain n (receive now other) = 0 ≤ 0
IsPlain n (idle now) = 0 ≤ 0
IsPlain n (flushes now) = 0 ≤ 0

unfoldable pub ArePlain : ℕ → List Event → Type 0
ArePlain n [] = 0 ≤ 0
ArePlain n (e ∷ es) = IsPlain n e × ArePlain n es

pub rewrite-Leaves :
    (w : World) (m : FileMessage) (l : Logs) (n : ℕ)
    → IsSettled w l.writer
    → m.file_name ≢ n
    → Leaves w n l.writer.level
        (view w l.writer n ++ [])
        (some (record l { writer = do_message_rewrite_file w m l.writer }))
unfolding do_message_rewrite_file append_file
rewrite-Leaves w m l n i z = (
  record l { writer = do_message_rewrite_file w m l.writer },
  refl,
  ground arith,
  ground arith,
  ground (arith, append-nil (view w l.writer n)),
)

-- An event in two parts: what is done with the message, and then the check of the buffer.
pub checked :
    (d : ℕ) (w : World) (now : ℕ) (n : ℕ) (level : ℤ) (bytes : List ℕ) (o : Option Logs)
    → IsGood w
    → Leaves w n level bytes o
    → Leaves w n level bytes
        (elim o as (λ x. Option Logs) [ none ↦ none | some k ↦ check_and_flush_buffer d w now k ])
checked d w now n level bytes o g (k, e, i, lv, v) =
    let (j, e2, i2, lv2, v2) = check-Leaves d w now k n g i in
    (
      j,
      ap
            (λ (x : Option Logs). elim x as (λ y. Option Logs) [
              | none ↦ none
              | some k1 ↦ check_and_flush_buffer d w now k1
            ])
            e
          ∙ e2,
      i2,
      lv2 ∙ lv,
      v2 ∙ v,
    )
