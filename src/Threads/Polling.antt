-- ===== src/Threads/Polling.antt =====
-- Threads/PollingsLinux.cpp: the pollers of a thread and a turn of poll. A descriptor is an integer, with
-- -1 for none; what the system answers is an argument. Calls of `process` do not register pollers.
pub mod Registered
mod Tests
use threader.Prelude.{
  ℕ, zero, suc, ◌+◌, ◌-◌, Bool, true, false, ◌&&◌, not, Option, none, some, List, [], ◌∷◌, ◌++◌,
  ◌==◌, if◌then◌else◌, length, take, replicate, set,
}
use threader.Prelude.Int.{ℤ, pos, negsuc}

abbrev pub eq_ℤ : ℤ → ℤ → Bool
eq_ℤ (pos a) (pos b) = a == b
eq_ℤ (negsuc a) (negsuc b) = a == b
eq_ℤ _ _ = false

-- `PollerBase`, with a number that tells one object from another
pub record Poller : Type 0 where
  pub number : ℕ
  pub descriptor : ℤ
  pub events : ℕ

-- `pollfd`
pub record PollFd : Type 0 where
  pub fd : ℤ
  pub events : ℕ
  pub revents : ℕ

-- `processed` are the pollers whose event was signalled, with the event.
pub record Polling : Type 0 where
  pub pollers : List Poller
  pub structs : List PollFd
  pub processed : List (ℕ × PollFd)

unfoldable pub new_polling : Polling
new_polling = record { pollers = []; structs = []; processed = [] }

-- `indexOfDescriptor`, from the number `i` on
unfoldable pub index_from : ℕ → ℤ → List Poller → Option ℕ
index_from i d [] = none
index_from i d (p ∷ ps) =
    let rest = index_from (i + 1) d ps in if eq_ℤ p.descriptor d then some i else rest

unfoldable pub index_of_descriptor : ℤ → List Poller → Option ℕ
index_of_descriptor d ps = index_from 0 d ps

abbrev empty_struct : PollFd
empty_struct = record { fd = pos 0; events = 0; revents = 0 }

-- `QVector::resize`
unfoldable pub resize : ℕ → List PollFd → List PollFd
resize n xs = take n xs ++ replicate (n - length xs) empty_struct

-- The list after `registerPoller`: a poller with the same descriptor is replaced.
unfoldable pub with_poller : Poller → List Poller → List Poller
with_poller p ps = elim (index_of_descriptor p.descriptor ps) [
  | none ↦ ps ++ (p ∷ [])
  | some i ↦ set ps i p
]

-- `registerPoller`
unfoldable pub register_poller : Poller → Polling → ℕ × Polling
register_poller p g =
    let ps = with_poller p g.pollers in
    (length ps, record g { pollers = ps; structs = resize (length ps) g.structs })

-- `QList::removeAll`
unfoldable pub remove_all : ℕ → List Poller → List Poller
remove_all number [] = []
remove_all number (p ∷ ps) =
    let rest = remove_all number ps in if p.number == number then rest else p ∷ rest

-- `unregisterPoller`
unfoldable pub unregister_poller : ℕ → Polling → ℕ × Polling
unregister_poller number g =
    let ps = remove_all number g.pollers in
    (length ps, record g { pollers = ps; structs = resize (length ps) g.structs })

-- `PollerBase::assign`
unfoldable pub assign : Poller → PollFd → PollFd
assign p s = record { fd = p.descriptor; events = p.events; revents = 0 }

-- The loop that fills the structures; none is a read out of the list.
unfoldable pub assign_loop : List Poller → List PollFd → Option (List PollFd)
assign_loop ps [] = some []
assign_loop [] (s ∷ ss) = none
assign_loop (p ∷ ps) (s ∷ ss) = elim (assign_loop ps ss) [
  | none ↦ none
  | some rest ↦ some (assign p s ∷ rest)
]

-- `PollerBase::process`: the pollers that signal an event.
unfoldable pub process : Poller → PollFd → List (ℕ × PollFd)
process p s = if eq_ℤ s.fd p.descriptor then (p.number, s) ∷ [] else []

-- The loop over the results.
unfoldable pub process_loop : List Poller → List PollFd → Option (List (ℕ × PollFd))
process_loop ps [] = some []
process_loop [] (s ∷ ss) = none
process_loop (p ∷ ps) (s ∷ ss) = elim (process_loop ps ss) [
  | none ↦ none
  | some rest ↦ some (if s.revents == 0 then rest else process p s ++ rest)
]

-- The structures with the answer of the system.
unfoldable pub answered : (ℕ → ℕ) → ℕ → List PollFd → List PollFd
answered revents i [] = []
answered revents i (s ∷ ss) = record s { revents = revents i } ∷ answered revents (i + 1) ss

-- `poll`; the system gives `result` and what happened at each structure, after calls that a signal ended.
unfoldable pub poll : ℤ → (ℕ → ℕ) → Polling → Option (ℤ × Polling)
poll result revents g =
    if length g.structs == 0 then some (pos 0, g) else elim (assign_loop g.pollers g.structs) [
      | none ↦ none
      | some filled ↦ elim (process_loop g.pollers (answered revents 0 filled)) [
        | none ↦ none
        | some signals ↦ some (
          result,
          record g {
            structs = answered revents 0 filled;
            processed = g.processed ++ (if eq_ℤ result (pos 0) then [] else signals);
          },
        )
      ]
    ]
