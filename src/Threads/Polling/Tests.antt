-- ===== src/Threads/Polling/Tests.antt =====
-- A run of the theorem on a polling with two pollers, one of which is replaced.
use threader.Prelude.{ℕ, ◌≡◌, refl, some, List, [], ◌∷◌, ◌++◌, if◌then◌else◌, ◌==◌}
use threader.Prelude.Int.{pos}
use threader.Threads.Polling.{Poller, Polling, new_polling}
use threader.Threads.Polling.Registered.{
  Op, register, unregister, turn, run, expected, IsSized, run-expected,
}

abbrev poller : ℕ → ℕ → Poller
poller n d = record { number = n; descriptor = pos d; events = 1 }

abbrev ops : List Op
ops =
    register (poller 1 5)
    ∷ register (poller 2 6)
    ∷ turn (pos 1) (λ i. if i == 1 then 4 else 0)
    ∷ register (poller 3 5)
    ∷ unregister 2
    ∷ turn (pos 1) (λ i. 1)
    ∷ []

new_polling-IsSized : IsSized new_polling
unfolding new_polling
new_polling-IsSized = refl

run-expected_example :
    (h : Polling) × (run ops new_polling ≡ some h)
    × IsSized h
    × (h.processed ≡ new_polling.processed ++ expected ops new_polling.pollers)
run-expected_example = run-expected ops new_polling new_polling-IsSized
