-- ===== src/Threads/Base/View.antt =====
-- What happens to a thread (Threads/ThreadBase.cpp), and the abstract thread: a list of waiting
-- messages and a list of children.
use threader.Prelude.{
  ℕ, ◌+◌, Bool, true, false, Option, none, some, List, [], ◌∷◌, ◌++◌, leb, if◌then◌else◌, map,
  reverse, zero, suc, length,
}
use threader.Threads.Base.{
  Child, Base, post_message, post_messages, register_and_start_child_thread, start_timer, has_name,
  stop_timer, stop_all_timers, finish, ask_child, terminate_child_thread, slot_wake_up_thread,
  slot_terminate_child_threads, on_after_wait_events,
}

-- What happens to a thread.
pub data Call : Type 0 where
  posts : ℕ → Call
  posts_list : List ℕ → Call
  wakes : Call
  starts : Child → Call
  starts_timer : ℕ → ℕ → Call
  stops : ℕ → Call
  stops_all : Call
  child_ends : ℕ → Call
  destroys : ℕ → Call
  waited : ℕ → Call
  thread_ends : Call
  terminates : Option ℕ → ℕ → Call

unfoldable pub step : (ℕ → List ℕ) → Base → Call → Option Base
step react b (posts m) = post_message b m
step react b (posts_list ms) = post_messages b ms
step react b wakes = slot_wake_up_thread react b
step react b (starts c) = some (register_and_start_child_thread b c)
step react b (starts_timer n name) = some (start_timer b n name)
step react b (stops name) = some (stop_timer b name).1
step react b stops_all = some (stop_all_timers b).1
step react b (child_ends n) = some (record b { children = finish n b.children })
step react b (destroys now) = some (slot_terminate_child_threads now b)
step react b (waited now) = some (on_after_wait_events now b)
step react b thread_ends = some (record b { is_finished = true })
step react b (terminates rounds n) = terminate_child_thread react rounds n b

unfoldable pub run : (ℕ → List ℕ) → Base → List Call → Option Base
run react b [] = some b
run react b (c ∷ cs) = elim (step react b c) [ none ↦ none | some b1 ↦ run react b1 cs ]

-- The abstract thread: no mutex, no loops and no events.
pub record View : Type 0 where
  pub handled : List ℕ
  pub waiting : List ℕ
  pub children : List Child
  pub destroyed : List Child
  pub deadline : ℕ
  pub wake_ups : ℕ
  pub finished : Bool

abbrev pub view : Base → View
view b = record {
  handled = b.processed;
  waiting = b.queue.queue;
  children = b.children;
  destroyed = b.destroyed;
  deadline = b.next_destroy;
  wake_ups = b.wake_ups;
  finished = b.is_finished;
}

-- The messages that come while those of a list are processed.
unfoldable pub reactions : (ℕ → List ℕ) → List ℕ → List ℕ
reactions react [] = []
reactions react (m ∷ ms) = react m ++ reactions react ms

unfoldable pub alive : List Child → List Child
alive [] = []
alive (c ∷ cs) = if c.finished then alive cs else c ∷ alive cs

unfoldable pub ended : List Child → List Child
ended [] = []
ended (c ∷ cs) = if c.finished then c ∷ ended cs else ended cs

abbrev pub ask : Child → Child
ask c = record c { asked = true }

abbrev pub is_timer : Option ℕ → Bool
is_timer none = false
is_timer (some t) = true

abbrev pub bury : ℕ → View → View
bury now v = record v {
  children = alive v.children;
  destroyed = v.destroyed ++ reverse (ended v.children);
  deadline = now + 1000;
}

-- Messages that come, with so many wake-up events, which a thread that has finished is not sent.
abbrev pub told : List ℕ → ℕ → View → View
told ms n v = record v {
  waiting = v.waiting ++ ms;
  wake_ups = if v.finished then v.wake_ups else v.wake_ups + n;
}

-- The waiting messages are handled, and each message that comes meanwhile is a wake-up event.
abbrev pub absorb : (ℕ → List ℕ) → View → View
absorb react v = record v {
  handled = v.handled ++ v.waiting;
  waiting = reactions react v.waiting;
  wake_ups = if v.finished then v.wake_ups else v.wake_ups + length (reactions react v.waiting);
}

unfoldable pub absorb_times : (ℕ → List ℕ) → ℕ → View → View
absorb_times react zero v = v
absorb_times react (suc n) v = absorb_times react n (absorb react v)

-- A child ends, with the messages that are handled until then and once more after it.
unfoldable pub view_terminate : (ℕ → List ℕ) → Option ℕ → ℕ → View → View
view_terminate react none n v = absorb react (record v { children = finish n v.children })
view_terminate react (some rounds) n v =
    let waited = absorb_times react rounds (record v { children = ask_child n v.children }) in
    absorb react (record waited { children = finish n waited.children })

unfoldable pub view_terminate_all : (ℕ → List ℕ) → (ℕ → Option ℕ) → List Child → View → View
view_terminate_all react rounds [] v = v
view_terminate_all react rounds (c ∷ cs) v =
    view_terminate_all react rounds cs (view_terminate react (rounds c.number) c.number v)

unfoldable pub view_step : (ℕ → List ℕ) → View → Call → View
view_step react v (posts m) = told (m ∷ []) 1 v
view_step react v (posts_list ms) = told ms 1 v
view_step react v wakes = absorb react v
view_step react v (starts c) = record v { children = v.children ++ (c ∷ []) }
view_step react v (starts_timer n name) = record v {
  children =
      v.children
      ++ (record { number = n; timer = some name; finished = false; asked = false } ∷ []);
}
view_step react v (stops name) = record v {
  children = map (λ c. if has_name c.timer name then ask c else c) v.children;
}
view_step react v stops_all = record v {
  children = map (λ c. if is_timer c.timer then ask c else c) v.children;
}
view_step react v (child_ends n) = record v { children = finish n v.children }
view_step react v (destroys now) = bury now v
view_step react v (waited now) = if leb v.deadline now then bury now v else v
view_step react v thread_ends = record v { finished = true }
view_step react v (terminates rounds n) = view_terminate react rounds n v

unfoldable pub view_run : (ℕ → List ℕ) → View → List Call → View
view_run react v [] = v
view_run react v (c ∷ cs) = view_run react (view_step react v c) cs
