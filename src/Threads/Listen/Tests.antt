-- ===== src/Threads/Listen/Tests.antt =====
-- Runs of the theorems on a listening thread: a failure, connections, an error and a new socket.
use threader.Prelude.{ℕ, Bool, ◌≡◌, refl, true, false, some, List, [], ◌∷◌, ◌++◌, ltb}
use threader.Utils.Sockets.{done, fails, made, ServerCalls}
use threader.Threads.Listen.{new_thread}
use threader.Threads.Listen.Sockets.{valids, held, is_valid}
use threader.Threads.Listen.Life.{
  Event, before_wait, polled, terminates, run, all_given, run-new_thread,
}

abbrev good : ServerCalls
good = record { create = made 3; reuse = done; nonblocking = done; bind = done; listen = done }

-- The port is taken.
abbrev bad : ServerCalls
bad = record good { bind = fails 98 }

abbrev small : ℕ → Bool
small n = ltb n 10

abbrev events : List Event
events =
    before_wait 5 bad
    ∷ before_wait 40000 good
    ∷ polled small (7 ∷ []) 11 (some 3) (record { error = false; input = true })
    ∷ polled small [] 9 (some 3) (record { error = true; input = false })
    ∷ before_wait 40001 good
    ∷ terminates
    ∷ []

run-new_thread_example :
    let l = (run events (new_thread 0)).listener in
    (valids l.closed ++ held l.descriptor ≡ all_given events (new_thread 0))
    × (is_valid l.descriptor ≡ l.is_initialized)
run-new_thread_example = run-new_thread 0 events refl
