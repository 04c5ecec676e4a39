-- ===== src/Threads/Logs/Course.antt =====
-- A sequence of events of the log's thread (Threads/ThreadLogs.cpp) adds what the journal says.
use threader.Prelude.{
  ℕ, ◌≡◌, refl, ap, ap₂, ◌∙◌, sym, Option, none, some, List, [], ◌∷◌, ◌++◌, append-nil,
  append_assoc, arith, subst,
}
use threader.Prelude.Int.{ℤ}
use threader.Threads.Logs.{Message, World, Writer, set_level}
use threader.Threads.Logs.Thread.{
  Logs, log, write_to_file, log_level, other, handle, process_message,
}
use threader.Threads.Logs.Writing.{IsGood, IsSettled, view}
use threader.Threads.Logs.Thread.{post}
use threader.Threads.Logs.Run.{
  Leaves, flush-Leaves, check-Leaves, do_message-Leaves, rewrite-Leaves, checked, Event, receive,
  idle, flushes, react, run, entry, next_level, journal, last_level, IsPlain, ArePlain,
}

abbrev handled : Message → Option Logs → Option Logs
handled m none = none
handled m (some k) = some (post m k)

posted :
    (w : World) (n : ℕ) (level : ℤ) (bytes : List ℕ) (m : Message) (o : Option Logs)
    → Leaves w n level bytes o
    → Leaves w n level bytes (handled m o)
posted w n level bytes m o (k, e, i, lv, v) =
    let kept : (post m k).writer ≡ k.writer = ground arith in
    (
      post m k,
      ap (handled m) e,
      subst (IsSettled w) (sym kept) i,
      ap (λ (s : Writer). s.level) kept ∙ lv,
      ap (λ (s : Writer). view w s n) kept ∙ v,
    )

react-Leaves :
    (d : ℕ) (w : World) (e : Event) (l : Logs) (n : ℕ)
    → IsGood w
    → IsSettled w l.writer
    → IsPlain n e
    → Leaves w n
        (next_level l.writer.level e)
        (view w l.writer n ++ entry w l.writer.level e n)
        (react d w e l)
unfolding react process_message handle set_level
react-Leaves d w (receive now (log m)) l n g i z =
    checked d w now n _ _ _ g (posted w n _ _ m _ (do_message-Leaves d w now m l n g i z))
react-Leaves d w (receive now (write_to_file m)) l n g i z =
    checked d w now n _ _ _ g (rewrite-Leaves w m l n i z)
react-Leaves d w (receive now (log_level v)) l n g i z =
    let k = record l { writer = set_level v l.writer } in
    checked d w now n v (view w l.writer n ++ []) (some k) g
      (k, refl, i, refl, sym (append-nil (view w l.writer n)))
react-Leaves d w (receive now other) l n g i z =
    checked d w now n l.writer.level (view w l.writer n ++ []) (some l) g
      (l, refl, i, refl, sym (append-nil (view w l.writer n)))
react-Leaves d w (idle now) l n g i z =
    let (k, e, i2, lv, v) = check-Leaves d w now l n g i in
    (k, e, i2, lv, v ∙ sym (append-nil (view w l.writer n)))
react-Leaves d w (flushes now) l n g i z =
    let (k, e, i2, lv, v) = flush-Leaves d w now l n g i in
    (k, e, i2, lv, v ∙ sym (append-nil (view w l.writer n)))

pub run-Leaves :
    (d : ℕ) (w : World) (es : List Event) (l : Logs) (n : ℕ)
    → IsGood w
    → IsSettled w l.writer
    → ArePlain n es
    → Leaves w n
        (last_level l.writer.level es)
        (view w l.writer n ++ journal w l.writer.level es n)
        (run d w es l)
unfolding run journal last_level ArePlain
run-Leaves d w [] l n g i z = (l, refl, i, refl, sym (append-nil (view w l.writer n)))
run-Leaves d w (e ∷ es) l n g i (z, zs) =
    let (k, q, i2, lv, v) = react-Leaves d w e l n g i z in
    let (j, q2, i3, lv2, v2) = run-Leaves d w es k n g i2 zs in
    (
      j,
      ap
            (λ (x : Option Logs). elim x as (λ y. Option Logs) [
              | none ↦ none
              | some k1 ↦ run d w es k1
            ])
            q
          ∙ q2,
      i3,
      lv2 ∙ ap (λ (y : ℤ). last_level y es) lv,
      v2
          ∙ ap₂ (λ (x : List ℕ) (y : ℤ). x ++ journal w y es n) v lv
          ∙ append_assoc (view w l.writer n) (entry w l.writer.level e n) _,
    )
