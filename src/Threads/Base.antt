-- ===== src/Threads/Base.antt =====
-- Threads/ThreadBase.cpp and Threads/ThreadBase.h: the messages and the child threads of a thread.
-- The virtual `processMessage` is an argument: which messages come to the queue of this thread while
-- one is processed, from it and from other threads, in the order in which they get the mutex.
-- `finished` of a child is what `isFinished` says. Statistics and the events of pollers are left out.
pub mod View
pub mod Posting
pub mod Children
pub mod Refinement
mod Tests
use threader.Prelude.{
  ℕ, ◌+◌, Bool, true, false, ◌||◌, Option, none, some, List, [], ◌∷◌, ◌++◌, ◌==◌, leb,
  if◌then◌else◌, length, zero, suc, reverse,
}
use threader.Threads.Messages
use threader.Threads.Messages.{QueueMessages}

-- `timer` is the name of a ThreadTimer; `asked` says that a terminate event was posted.
pub record Child : Type 0 where
  pub number : ℕ
  pub timer : Option ℕ
  pub finished : Bool
  pub asked : Bool

-- `processed` are the messages given to `processMessage`, `destroyed` the children given to
-- `onDestroyTerminatedChildThread`, both in order; `wake_ups` counts the wake-up events.
pub record Base : Type 0 where
  pub queue : QueueMessages
  pub is_finished : Bool
  pub wake_ups : ℕ
  pub messages_left : ℕ
  pub processed : List ℕ
  pub children : List Child
  pub destroyed : List Child
  pub next_destroy : ℕ

unfoldable pub new : ℕ → Base
new now = record {
  queue = Messages.new;
  is_finished = false;
  wake_ups = 0;
  messages_left = 0;
  processed = [];
  children = [];
  destroyed = [];
  next_destroy = now + 1000;
}

-- `signalEventWakeUp`
unfoldable pub signal_wake_up : Base → Base
signal_wake_up b = record b { wake_ups = if b.is_finished then b.wake_ups else b.wake_ups + 1 }

-- `postMessage`
unfoldable pub post_message : Base → ℕ → Option Base
post_message b message = elim (Messages.enqueue message b.queue) [
  | none ↦ none
  | some r ↦ some (signal_wake_up (record b { queue = r.1 }))
]

-- `postMessages`
unfoldable pub post_messages : Base → List ℕ → Option Base
post_messages b list = elim (Messages.enqueue_list list b.queue) [
  | none ↦ none
  | some r ↦ some (signal_wake_up (record b { queue = r.1 }))
]

-- Messages that are posted one by one.
unfoldable pub post_all : Base → List ℕ → Option Base
post_all b [] = some b
post_all b (m ∷ ms) = elim (post_message b m) [ none ↦ none | some b1 ↦ post_all b1 ms ]

-- The loop of `processMessages`.
unfoldable pub process_loop : (ℕ → List ℕ) → Base → List ℕ → Option Base
process_loop react b [] = some b
process_loop react b (m ∷ ms) =
    let b1 = record b { messages_left = length ms; processed = b.processed ++ (m ∷ []) } in
    elim (post_all b1 (react m)) [ none ↦ none | some b2 ↦ process_loop react b2 ms ]

-- `processMessages`
unfoldable pub process_messages : (ℕ → List ℕ) → Base → Option Base
process_messages react b = elim (Messages.dequeue_all b.queue) [
  | none ↦ none
  | some r ↦ process_loop react (record b { queue = r.1; messages_left = length r.0 }) r.0
]

-- `registerAndStartChildThread`
unfoldable pub register_and_start_child_thread : Base → Child → Base
register_and_start_child_thread b c = record b { children = b.children ++ (c ∷ []) }

-- `startTimer`, which makes a thread with a new number
unfoldable pub start_timer : Base → ℕ → ℕ → Base
start_timer b number name =
    register_and_start_child_thread b
      (record { number = number; timer = some name; finished = false; asked = false })

abbrev pub has_name : Option ℕ → ℕ → Bool
has_name none name = false
has_name (some t) name = t == name

-- The loop of `stopTimer`: whether there is such a timer, and the children.
unfoldable pub stop_loop : ℕ → List Child → Bool × List Child
stop_loop name [] = (false, [])
stop_loop name (c ∷ cs) =
    let (found, rest) = stop_loop name cs in
    if has_name c.timer name then (true, record c { asked = true } ∷ rest) else (found, c ∷ rest)

-- `stopTimer`
unfoldable pub stop_timer : Base → ℕ → Bool × Base
stop_timer b name =
    let (found, cs) = stop_loop name b.children in (found, record b { children = cs })

-- The loop of `stopAllTimers`.
unfoldable pub stop_all_loop : List Child → ℕ × List Child
stop_all_loop [] = (0, [])
stop_all_loop (c ∷ cs) =
    let (n, rest) = stop_all_loop cs in
    elim c.timer [ none ↦ (n, c ∷ rest) | some t ↦ (n + 1, record c { asked = true } ∷ rest) ]

-- `stopAllTimers`
unfoldable pub stop_all_timers : Base → ℕ × Base
stop_all_timers b = let (n, cs) = stop_all_loop b.children in (n, record b { children = cs })

-- The loop of `destroyTerminatedChildThreads`, from the last child to the first: those that are
-- deleted, in the order of deletion, and those that stay.
unfoldable pub destroy_loop : List Child → List Child × List Child
destroy_loop [] = ([], [])
destroy_loop (c ∷ cs) =
    let (gone, kept) = destroy_loop cs in
    if c.finished then (gone ++ (c ∷ []), kept) else (gone, c ∷ kept)

-- `destroyTerminatedChildThreads` at the time `now`
unfoldable pub destroy_terminated_child_threads : ℕ → Bool → Base → Base
destroy_terminated_child_threads now right_now b =
    let (gone, kept) = destroy_loop b.children in
    if right_now || leb b.next_destroy now
    then record b { children = kept; destroyed = b.destroyed ++ gone; next_destroy = now + 1000 }
    else b

-- Child `number` is asked to end: `postTerminateEvent`.
unfoldable pub ask_child : ℕ → List Child → List Child
ask_child number [] = []
ask_child number (c ∷ cs) =
    (if c.number == number then record c { asked = true } else c) ∷ ask_child number cs

-- Child `number` comes to its end.
unfoldable pub finish : ℕ → List Child → List Child
finish number [] = []
finish number (c ∷ cs) =
    (if c.number == number then record c { finished = true } else c) ∷ finish number cs

-- `processMessages` over and over, while a child is not finished.
unfoldable pub process_times : (ℕ → List ℕ) → ℕ → Base → Option Base
process_times react zero b = some b
process_times react (suc n) b = elim (process_messages react b) [
  | none ↦ none
  | some b1 ↦ process_times react n b1
]

-- `terminateChildThread` of child `number`: it has ended already, or it ends when the loop has gone
-- round so many times.
unfoldable pub terminate_child_thread : (ℕ → List ℕ) → Option ℕ → ℕ → Base → Option Base
terminate_child_thread react none number b =
    process_messages react (record b { children = finish number b.children })
terminate_child_thread react (some rounds) number b =
    elim (process_times react rounds (record b { children = ask_child number b.children })) [
      | none ↦ none
      | some b1 ↦ process_messages react (record b1 { children = finish number b1.children })
    ]

-- The first loop of `terminateChildThreads`, with the children from the last to the first.
unfoldable pub terminate_loop : (ℕ → List ℕ) → (ℕ → Option ℕ) → List Child → Base → Option Base
terminate_loop react rounds [] b = some b
terminate_loop react rounds (c ∷ cs) b =
    elim (terminate_child_thread react (rounds c.number) c.number b) [
      | none ↦ none
      | some b1 ↦ terminate_loop react rounds cs b1
    ]

-- `terminateChildThreads`, with the children that it deletes, in order; they stay in the list.
unfoldable pub terminate_child_threads :
    (ℕ → List ℕ) → (ℕ → Option ℕ) → Base → Option (List Child × Base)
terminate_child_threads react rounds b = elim (terminate_loop react rounds (reverse b.children) b) [
  | none ↦ none
  | some b1 ↦ some (reverse b1.children, b1)
]

-- What `run` does behind `onThreadFinishing`: `terminateChildThreads` and `processMessages`.
unfoldable pub end_of_run : (ℕ → List ℕ) → (ℕ → Option ℕ) → Base → Option (List Child × Base)
end_of_run react rounds b = elim (terminate_child_threads react rounds b) [
  | none ↦ none
  | some (gone, b1) ↦ elim (process_messages react b1) [ none ↦ none | some b2 ↦ some (gone, b2) ]
]

-- `slotWakeUpThread`, `slotTerminateChildThreads` and `onAfterWaitEvents`
unfoldable pub slot_wake_up_thread : (ℕ → List ℕ) → Base → Option Base
slot_wake_up_thread react b = process_messages react b

unfoldable pub slot_terminate_child_threads : ℕ → Base → Base
slot_terminate_child_threads now b = destroy_terminated_child_threads now true b

unfoldable pub on_after_wait_events : ℕ → Base → Base
on_after_wait_events now b = destroy_terminated_child_threads now false b
