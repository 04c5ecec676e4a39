-- ===== src/Threads/Wake/Tests.antt =====
-- A run of the theorem on a pipe that holds two signals: the third is lost.
use threader.Prelude.{List, [], ◌∷◌, arith}
use threader.Threads.Wake.{terminate, terminate_child_threads, wake_up, new_poller_thread}
use threader.Threads.Wake.Order.{Op, sends, event, run, IsReported, Leaves, run-taken}

abbrev ops : List Op
ops =
    sends wake_up
    ∷ sends terminate_child_threads
    ∷ sends terminate
    ∷ event 0
    ∷ sends wake_up
    ∷ event 0
    ∷ []

ops-IsReported : IsReported 2 0 ops
ops-IsReported = (omega arith, (omega arith, omega arith))

run-taken_example :
    Leaves (run 2 ops new_poller_thread) (wake_up ∷ terminate_child_threads ∷ wake_up ∷ []) 1
run-taken_example = run-taken 2 ops ops-IsReported
