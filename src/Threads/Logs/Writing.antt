-- ===== src/Threads/Logs/Writing.antt =====
-- What the log's writer (Threads/WriterLogs.cpp) does where files can be opened and take all that is
-- written.
use threader.Prelude.{
  ℕ, zero, suc, ◌≡◌, refl, Bool, true, false, not, Option, none, some, List, [], ◌++◌, ◌==◌,
  if◌then◌else◌, length, take_all, append-nil, arith, ◌||◌, ◌&&◌, ◌⊎◌,
}
use threader.Prelude.Int.{ℤ, pos, ltb_ℤ}
use threader.Threads.Logs.{
  Message, World, Writer, write_file, append_file, log_message, flush_with, log_flush_buffer,
  is_empty, is_open, line_end, zero_date,
}

-- Files can be opened and take all, and the encoding works on parts of a string (on whole
-- characters).
pub record IsGood (w : World) : Type 0 where
  pub opens : (n name : ℕ) → w.can_open n name ≡ true
  pub takes_all : (n : ℕ) (bytes : List ℕ) → w.takes n bytes ≡ pos (length bytes)
  pub utf8_empty : w.utf8 [] ≡ []
  pub utf8_append : (s t : List ℕ) → w.utf8 (s ++ t) ≡ w.utf8 s ++ w.utf8 t

-- The file of the writer's date is open.
abbrev pub IsReady : World → Writer → Type 0
IsReady w s = s.file ≡ some (w.file_name s.date)

-- What a file holds, with the text of the buffer for the open one.
abbrev pub pending : World → Option ℕ → List ℕ → ℕ → List ℕ
pending w none buffer n = []
pending w (some f) buffer n = if n == f then w.utf8 buffer else []

abbrev pub view : World → Writer → ℕ → List ℕ
view w s n = s.files n ++ pending w s.file s.buffer n

-- What is flushed.
abbrev pub flushed : World → Writer → Writer
flushed w s =
    if is_empty s.buffer || not (is_open s.file)
    then s
    else record ((write_file w (w.utf8 s.buffer) s).1) { buffer = [] }

not_short : (n : ℕ) → ltb_ℤ (pos n) (pos n) ≡ false
not_short n = ground arith

flush_with-flushed :
    (w : World) (report : Message → Writer → Option Writer) (s : Writer)
    → IsGood w
    → flush_with report w s ≡ some (flushed w s)
unfolding flush_with write_file
flush_with-flushed w report s g =
    let b = w.utf8 s.buffer in grind (arith, g.takes_all s.writes b, not_short (length b))

pub log_flush_buffer-flushed :
    (n : ℕ) (w : World) (s : Writer) → IsGood w → log_flush_buffer n w s ≡ some (flushed w s)
unfolding log_flush_buffer
log_flush_buffer-flushed zero w s g = flush_with-flushed w (λ m s3. none) s g
log_flush_buffer-flushed (suc n) w s g =
    flush_with-flushed w (log_message (log_flush_buffer n w) w) s g

-- A writer that has not yet opened a file has nothing to write.
abbrev pub IsSettled : World → Writer → Type 0
IsSettled w s = IsReady w s ⊎ ((s.file ≡ none) × (s.buffer ≡ []) × (s.date ≡ zero_date))

-- What a message adds to the file `n`.
abbrev pub accepted : ℤ → Message → Bool
accepted level m = not (ltb_ℤ level m.level)

abbrev pub part : World → ℤ → Message → ℕ → List ℕ
part w level m n =
    if accepted level m && (n == w.file_name m.date) then w.utf8 (m.text ++ line_end) else []

pub pending_empty : (w : World) (f : Option ℕ) (n : ℕ) → IsGood w → pending w f [] n ≡ []
pending_empty w none n g = refl
pending_empty w (some f) n g = ground (arith, g.utf8_empty)

pub view-flushed : (w : World) (s : Writer) (n : ℕ) → IsGood w → view w (flushed w s) n ≡ view w s n
unfolding write_file append_file
view-flushed w s n g =
    let b = w.utf8 s.buffer in
    grind (
      arith,
      g.takes_all s.writes b,
      take_all (length b) b (omega arith),
      g.utf8_empty,
      append-nil b,
      append-nil (s.files n),
      append-nil (s.files n ++ b),
    )
