-- ===== src/Threads/Messages/Tests.antt =====
-- Runs of the theorems on QueueMessages.
use threader.Prelude.{ℕ, ◌≡◌, false, some, List, [], ◌∷◌, ◌++◌}
use threader.Threads.Messages.{QueueMessages}
use threader.Threads.Messages.Fifo.{
  Call, post, post_list, take_one, take_all, counts, unlocked, run, run-fifo,
}

abbrev calls : List Call
calls = post 1 ∷ post_list (2 ∷ 3 ∷ []) ∷ take_one ∷ counts ∷ take_all ∷ []

run-fifo_example :
    (r : List ℕ × List ℕ × QueueMessages) × (run (unlocked (9 ∷ [])) calls ≡ some r)
    × (r.2.locked ≡ false)
    × ((9 ∷ []) ++ r.0 ≡ r.1 ++ r.2.queue)
run-fifo_example = run-fifo (9 ∷ []) calls
