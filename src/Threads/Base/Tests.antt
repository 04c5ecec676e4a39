-- ===== src/Threads/Base/Tests.antt =====
-- A run of the theorem on ThreadBase at concrete calls.
use threader.Prelude.{
  ℕ, ◌≡◌, refl, Option, none, reverse, false, true, some, List, [], ◌∷◌, ◌==◌, if◌then◌else◌,
}
use threader.Threads.Messages
use threader.Threads.Base.{Child, Base, new, finish, ask_child, end_of_run}
use threader.Threads.Base.View.{
  Call, posts, posts_list, wakes, starts, starts_timer, stops, child_ends, destroys, waited, run,
  View, view, absorb, absorb_times, view_terminate, view_terminate_all, reactions, alive, ended,
  view_step, view_run,
}
use threader.Threads.Base.Posting.{IsIdle}
use threader.Threads.Base.Refinement.{run-view_run}

-- While message 2 is processed, message 9 comes.
abbrev react : ℕ → List ℕ
react m = if m == 2 then 9 ∷ [] else []

-- Timer 3 runs in child 7.
abbrev worker : Child
worker = record { number = 6; timer = none; finished = false; asked = false }

abbrev calls : List Call
calls =
    posts 1
    ∷ starts_timer 7 3
    ∷ posts_list (2 ∷ 3 ∷ [])
    ∷ stops 3
    ∷ wakes
    ∷ child_ends 7
    ∷ waited 900
    ∷ destroys 950
    ∷ waited 2000
    ∷ starts worker
    ∷ starts_timer 8 4
    ∷ []

abbrev stopped : Child
stopped = record { number = 7; timer = some 3; finished = true; asked = true }

abbrev outcome : View
outcome = record {
  handled = 1 ∷ 2 ∷ 3 ∷ [];
  waiting = 9 ∷ [];
  children = worker ∷ record { number = 8; timer = some 4; finished = false; asked = false } ∷ [];
  destroyed = stopped ∷ [];
  deadline = 3000;
  wake_ups = 3;
  finished = false;
}

-- The timer ends in the second round, and the worker has ended by then.
abbrev rounds : ℕ → Option ℕ
rounds n = if n == 8 then some 1 else none

run-view_run_example :
    let v = view_terminate_all react rounds (reverse outcome.children) outcome in
    (b : Base) × (run react (new 5) calls ≡ some b)
    × (view b ≡ outcome)
    × IsIdle b
    × ((e : Base) × (end_of_run react rounds b ≡ some (reverse v.children, e))
        × (view e ≡ absorb react v)
        × IsIdle e)
unfolding view_run view_step reactions alive ended finish new Messages.new
run-view_run_example = run-view_run react 5 calls rounds

-- The end of the run handles the message that waits, and ends both children.
outcome-ends :
    absorb react (view_terminate_all react rounds (reverse outcome.children) outcome)
    ≡ record outcome {
      handled = 1 ∷ 2 ∷ 3 ∷ 9 ∷ [];
      waiting = [];
      children =
          record worker { finished = true }
          ∷ record { number = 8; timer = some 4; finished = true; asked = true }
          ∷ [];
    }
unfolding view_terminate_all view_terminate absorb_times reactions finish ask_child
outcome-ends = refl
