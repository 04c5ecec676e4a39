-- ===== src/Threads/Wake.antt =====
-- Threads/PollerThread.cpp for Linux: the signals to a thread go through a pipe that does not block. The
-- pipe is the list of its bytes, and how many it holds is an argument; a write into a full pipe, and a
-- read from an empty one, fail.
pub mod Order
mod Tests
use threader.Prelude.{
  ℕ, ◌+◌, ◌%◌, Bool, true, false, ◌&&◌, Option, none, some, List, [], ◌∷◌, ◌++◌, ◌==◌, ltb,
  if◌then◌else◌, length,
}

-- `ThreadSignals`
pub data ThreadSignal : Type 0 where
  terminate : ThreadSignal
  terminate_child_threads : ThreadSignal
  wake_up : ThreadSignal

-- The value of a signal as a byte.
unfoldable pub code : ThreadSignal → ℕ
code terminate = 1
code terminate_child_threads = 3
code wake_up = 2

-- `handled` are the signals that were emitted to the thread; `lost` counts the failed writes.
pub record PollerThread : Type 0 where
  pub pipe : List ℕ
  pub handled : List ThreadSignal
  pub lost : ℕ

unfoldable pub new_poller_thread : PollerThread
new_poller_thread = record { pipe = []; handled = []; lost = 0 }

-- `sendSignal`, with `sendSignalTerminate` and the others
unfoldable pub send_signal : ℕ → ThreadSignal → PollerThread → PollerThread
send_signal capacity s t =
    if ltb (length t.pipe) capacity
    then record t { pipe = t.pipe ++ (code s ∷ []) }
    else record t { lost = t.lost + 1 }

-- The `switch` of `process`, on the byte that was read.
unfoldable pub dispatch : ℕ → PollerThread → PollerThread
dispatch byte t =
    if byte == code terminate
    then record t { handled = t.handled ++ (terminate ∷ []) }
    else if byte == code wake_up
    then record t { handled = t.handled ++ (wake_up ∷ []) }
    else if byte == code terminate_child_threads
    then record t { handled = t.handled ++ (terminate_child_threads ∷ []) }
    else t

-- `process` of an event on the pipe, where `input` is POLLIN; `junk` is what the byte holds when the read
-- fails, since `receiveSignal` takes the -1 of the read for a success.
unfoldable pub process : ℕ → Bool → PollerThread → Bool × PollerThread
process junk input t =
    if input
    then (true, elim t.pipe [ [] ↦ dispatch junk t | b ∷ bs ↦ dispatch b (record t { pipe = bs }) ])
    else (false, t)
