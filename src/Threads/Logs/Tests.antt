-- ===== src/Threads/Logs/Tests.antt =====
-- Runs of the theorems on the log: two days of messages, and a full disk at midnight.
use threader.Prelude.{ℕ, ◌≡◌, refl, true, false, none, some, List, [], ◌∷◌, ◌++◌, arith, length}
use threader.Prelude.Int.{pos}
use threader.Threads.Logs.{Message, World, Writer, log_flush_buffer}
use threader.Threads.Logs.Thread.{Logs, log, log_level, write_to_file, new_logs}
use threader.Threads.Logs.Writing.{IsGood, part}
use threader.Threads.Logs.Run.{Event, receive, idle, flushes, journal, last_level, ArePlain}
use threader.Threads.Logs.Complete.{life, life-journal}
use threader.Threads.Logs.Endless.{IsFull, IsLate, log_flush_buffer-none}

abbrev message : ℕ → ℕ → ℕ → Message
message level date c = record { level = pos level; date = date; text = c ∷ [] }

-- Text of single bytes, a file for each date, and a disk that takes all.
abbrev good : World
good = record {
  utf8 = λ s. s;
  file_name = λ d. d;
  can_open = λ n f. true;
  takes = λ n b. pos (length b);
  failure = message 0 6 33;
}

good-IsGood : IsGood good
good-IsGood = record {
  opens = λ n f. refl;
  takes_all = λ n b. refl;
  utf8_empty = refl;
  utf8_append = λ s t. refl;
}

abbrev events : List Event
events =
    receive 2 (log (message 9 5 66))
    ∷ receive 3 (log (message 10 5 67))
    ∷ receive 4 (write_to_file (record { file_name = 7; text = 1 ∷ []; truncate = true }))
    ∷ idle 2000
    ∷ receive 2001 (log_level (pos 0))
    ∷ receive 2002 (log (message 1 6 68))
    ∷ receive 2003 (log (message 0 6 69))
    ∷ []

events-ArePlain : ArePlain 5 events
unfolding ArePlain
events-ArePlain = (
  λ e. absurd (omega (arith, e)),
  (
    λ e. absurd (omega (arith, e)),
    (
      λ e. absurd (omega (arith, e)),
      (
        omega arith,
        (
          omega arith,
          (λ e. absurd (omega (arith, e)), (λ e. absurd (omega (arith, e)), omega arith)),
        ),
      ),
    ),
  ),
)

abbrev no_files : ℕ → List ℕ
no_files n = []

abbrev late : List Event
late = receive 3000 (log (message 0 5 72)) ∷ flushes 3000 ∷ []

late-ArePlain : ArePlain 5 late
unfolding ArePlain
late-ArePlain = (λ e. absurd (omega (arith, e)), (omega arith, omega arith))

life-journal_example :
    (k : Logs) × (life 1 good
        (new_logs false true 0 no_files)
        (1, message 0 5 65)
        events
        (3000, message 0 6 70)
        late
        (3001, message 0 6 71)
      ≡ some k)
    × (k.writer.files 5
        ≡ []
          ++ part good (pos 9) (message 0 5 65) 5
          ++ journal good (pos 9) events 5
          ++ part good (last_level (pos 9) events) (message 0 6 70) 5
          ++ journal good (last_level (pos 9) events) late 5
          ++ part good (last_level (last_level (pos 9) events) late) (message 0 6 71) 5)
    × (k.writer.file ≡ none)
    × (k.writer.buffer ≡ [])
life-journal_example =
    life-journal 1 good false true 0 no_files 1 (message 0 5 65) events 3000 (message 0 6 70) late
      3001 (message 0 6 71) 5 good-IsGood (λ e. absurd (omega (arith, e))) events-ArePlain
      (λ e. absurd (omega (arith, e))) late-ArePlain (λ e. absurd (omega (arith, e)))

-- The writer of the date 5 with two characters to write.
abbrev writer : Writer
writer = record {
  level = pos 9;
  to_console = false;
  buffer = 1 ∷ 2 ∷ [];
  date = 5;
  file = some 5;
  files = no_files;
  printed = [];
  writes = 0;
}

abbrev full : World
full = record good { takes = λ n b. pos 0 }

full-IsFull : IsFull full
full-IsFull = record { opens = λ n f. refl; takes_none = λ n b. refl }

writer-IsLate : IsLate full writer
writer-IsLate = record {
  something = refl;
  encoded = omega arith;
  opened = refl;
  reported = refl;
  other_date = refl;
}

log_flush_buffer-none_example : log_flush_buffer 50 full writer ≡ none
log_flush_buffer-none_example = log_flush_buffer-none 50 full writer full-IsFull writer-IsLate
