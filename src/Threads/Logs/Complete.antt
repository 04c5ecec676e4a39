-- ===== src/Threads/Logs/Complete.antt =====
-- The log's thread (Threads/ThreadLogs.cpp) loses no line and writes each once, where files can be
-- opened and take all that is written.
use threader.Prelude.{
  ℕ, ◌+◌, ◌≡◌, ◌≢◌, refl, ap, ap₂, ◌∙◌, sym, Bool, Option, none, some, List, [], ◌++◌, append-nil,
  arith, inr, subst,
}
use threader.Prelude.Int.{ℤ, pos}
use threader.Threads.Logs.{Message, World, Writer, zero_date, new_writer}
use threader.Threads.Logs.Thread.{Logs, flush, do_message, on_thread_finished}
use threader.Threads.Logs.Writing.{
  IsGood, IsSettled, view, flushed, part, log_flush_buffer-flushed, view-flushed, pending,
  pending_empty,
}
use threader.Threads.Logs.Journal.{flushed_empty}
use threader.Threads.Logs.Thread.{new_logs, on_thread_started, on_thread_finishing}
use threader.Threads.Logs.Run.{Leaves, do_message-Leaves, Event, run, journal, last_level, ArePlain}
use threader.Threads.Logs.Course.{run-Leaves}

-- An operation after another that ends.
abbrev pub and_then : Option Logs → (Logs → Option Logs) → Option Logs
and_then none f = none
and_then (some k) f = f k

and_then-Leaves :
    (w : World) (n : ℕ) (level v : ℤ) (bytes more : List ℕ) (o : Option Logs)
    (f : Logs → Option Logs)
    → Leaves w n level bytes o
    → ((k : Logs)
        → IsSettled w k.writer
        → k.writer.level ≡ level
        → Leaves w n v (view w k.writer n ++ more) (f k))
    → Leaves w n v (bytes ++ more) (and_then o f)
and_then-Leaves w n level v bytes more o f (k, e, i, lv, b) h =
    let (j, e2, i2, lv2, b2) = h k i lv in
    (
      j,
      ap (λ (x : Option Logs). and_then x f) e ∙ e2,
      i2,
      lv2,
      b2 ∙ ap (λ (x : List ℕ). x ++ more) b,
    )

at_level :
    (d : ℕ) (w : World) (now : ℕ) (m : Message) (l : Logs) (n : ℕ) (level : ℤ)
    → IsGood w
    → m.date ≢ zero_date
    → IsSettled w l.writer
    → l.writer.level ≡ level
    → Leaves w n level (view w l.writer n ++ part w level m n) (do_message d w now m l)
at_level d w now m l n level g z i e =
    subst (λ (v : ℤ). Leaves w n v (view w l.writer n ++ part w v m n) (do_message d w now m l)) e
      (do_message-Leaves d w now m l n g i z)

run_at_level :
    (d : ℕ) (w : World) (es : List Event) (l : Logs) (n : ℕ) (level : ℤ)
    → IsGood w
    → ArePlain n es
    → IsSettled w l.writer
    → l.writer.level ≡ level
    → Leaves w n (last_level level es) (view w l.writer n ++ journal w level es n) (run d w es l)
run_at_level d w es l n level g z i e =
    subst
      (λ (v : ℤ).
        Leaves w n (last_level v es) (view w l.writer n ++ journal w v es n) (run d w es l))
      e (run-Leaves d w es l n g i z)

-- The life of the thread as `ThreadBase::run` goes through it: its start, its events, `aboutToFinish`,
-- the messages that are still processed after it, and its end. The thread has no child threads to end.
unfoldable pub life :
    ℕ
    → World
    → Logs
    → ℕ × Message
    → List Event
    → ℕ × Message
    → List Event
    → ℕ × Message
    → Option Logs
life d w l (t0, m0) es (t1, m1) late (t2, m2) =
    and_then
      (and_then
        (and_then (and_then (on_thread_started d w t0 m0 l) (run d w es))
          (on_thread_finishing d w t1 m1))
        (run d w late))
      (on_thread_finished d w t2 m2)

files-flushed :
    (w : World) (s : Writer) (n : ℕ) → IsGood w → IsSettled w s → (flushed w s).files n ≡ view w s n
files-flushed w s n g i =
    let f = flushed w s in
    sym (append-nil (f.files n))
    ∙ ap (λ (t : List ℕ). f.files n ++ t) (sym (pending_empty w f.file n g))
    ∙ ap (λ (b : List ℕ). f.files n ++ pending w f.file b n) (sym (flushed_empty w s i))
    ∙ view-flushed w s n g

finished :
    (d : ℕ) (w : World) (now : ℕ) (m : Message) (l : Logs) (n : ℕ)
    → IsGood w
    → m.date ≢ zero_date
    → IsSettled w l.writer
    → (k : Logs) × (on_thread_finished d w now m l ≡ some k)
      × (k.writer.files n ≡ view w l.writer n ++ part w l.writer.level m n)
      × (k.writer.file ≡ none)
      × (k.writer.buffer ≡ [])
unfolding on_thread_finished flush
finished d w now m l n g z i =
    let (j, e, i2, lv, v) = do_message-Leaves d w now m l n g i z in
    (
      record j { writer = record (flushed w j.writer) { file = none }; next_write = now + 1000 },
      ground (arith, e, log_flush_buffer-flushed d w j.writer g),
      files-flushed w j.writer n g i2 ∙ v,
      refl,
      flushed_empty w j.writer i2,
    )

-- Whatever messages, idle times and calls of `flush` the thread has before `aboutToFinish` and between
-- it and its end, once it is at its end every file that no other text was written to holds what it held
-- before and then, in order and once each, the lines of the accepted messages of its dates, with those
-- of the thread's start and end; the buffer is empty and the file is closed. That is where files can be
-- opened and take all that is written, the encoding works on parts of a string, and no message has the
-- date of a new writer; `d` is how deep `logFlushBuffer` and `doMessageLog` may call
-- each other.
pub life-journal :
    (d : ℕ) (w : World) (to_console has_subscriber : Bool) (t : ℕ) (files : ℕ → List ℕ) (t0 : ℕ)
    (m0 : Message) (es : List Event) (t1 : ℕ) (m1 : Message) (late : List Event) (t2 : ℕ)
    (m2 : Message) (n : ℕ)
    → IsGood w
    → m0.date ≢ zero_date
    → ArePlain n es
    → m1.date ≢ zero_date
    → ArePlain n late
    → m2.date ≢ zero_date
    → let last = last_level (pos 9) es in
      (k : Logs) × (life d w
          (new_logs to_console has_subscriber t files)
          (t0, m0)
          es
          (t1, m1)
          late
          (t2, m2)
        ≡ some k)
      × (k.writer.files n
          ≡ files n
            ++ part w (pos 9) m0 n
            ++ journal w (pos 9) es n
            ++ part w last m1 n
            ++ journal w last late n
            ++ part w (last_level last late) m2 n)
      × (k.writer.file ≡ none)
      × (k.writer.buffer ≡ [])
unfolding life new_logs new_writer on_thread_started on_thread_finishing
life-journal d w c hs t files t0 m0 es t1 m1 late t2 m2 n g z0 zs z1 zl z2 =
    let l = new_logs c hs t files in
    let i : IsSettled w l.writer = inr (refl, refl, refl) in
    let last = last_level (pos 9) es in
    let (k, e, ki, klv, kv) =
      and_then-Leaves w n last (last_level last late) _ (journal w last late n) _ (run d w late)
        (and_then-Leaves w n last last _ (part w last m1 n) _ (λ j. on_thread_finishing d w t1 m1 j)
          (and_then-Leaves w n (pos 9) last _ (journal w (pos 9) es n) _ (run d w es)
            (at_level d w t0 m0 l n (pos 9) g z0 i refl)
            (λ j ji jl. run_at_level d w es j n (pos 9) g zs ji jl))
          (λ j ji jl. at_level d w t1 m1 j n last g z1 ji jl))
        (λ j ji jl. run_at_level d w late j n last g zl ji jl) in
    let (f, fe, fv, ff, fb) = finished d w t2 m2 k n g z2 ki in
    (
      f,
      ap (λ (o : Option Logs). and_then o (on_thread_finished d w t2 m2)) e ∙ fe,
      fv
          ∙ ap₂ (λ (x : List ℕ) (y : ℤ). x ++ part w y m2 n) kv klv
          ∙ ap
              (λ (x : List ℕ).
                x
                ++ part w (pos 9) m0 n
                ++ journal w (pos 9) es n
                ++ part w last m1 n
                ++ journal w last late n
                ++ part w (last_level last late) m2 n)
              (append-nil (files n)),
      ff,
      fb,
    )
