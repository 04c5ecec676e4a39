-- ===== src/Threads/Polling/Registered.antt =====
-- Every poller has its structure, and poll gives each its events (Threads/PollingsLinux.cpp).
use threader.Prelude.{
  ℕ, suc, ◌+◌, ◌-◌, ◌≡◌, refl, ap, ap₂, ◌∙◌, sym, true, false, Option, none, some, List, [], ◌∷◌,
  ◌++◌, ◌==◌, if◌then◌else◌, length, take, replicate, arith, length-append, length-take,
  length-replicate, append-nil, append_assoc, Bool-cases, inl, inr,
}
use threader.Prelude.Int.{ℤ, pos, negsuc}
use threader.Threads.Polling.{
  with_poller, Poller, PollFd, Polling, resize, register_poller, remove_all, unregister_poller,
  assign, assign_loop, process, process_loop, answered, poll, eq_ℤ,
}

abbrev pub IsSized : Polling → Type 0
IsSized g = length g.structs ≡ length g.pollers

length-resize : (n : ℕ) (xs : List PollFd) → length (resize n xs) ≡ n
unfolding resize
length-resize n xs =
    let e : PollFd = record { fd = pos 0; events = 0; revents = 0 } in
    omega (
      arith,
      length-append (take n xs) (replicate (n - length xs) e),
      length-take n xs,
      length-replicate (n - length xs) e,
    )

register_poller-IsSized : (p : Poller) (g : Polling) → IsSized (register_poller p g).1
unfolding register_poller
register_poller-IsSized p g = length-resize _ g.structs

unregister_poller-IsSized : (n : ℕ) (g : Polling) → IsSized (unregister_poller n g).1
unfolding unregister_poller
unregister_poller-IsSized n g = length-resize _ g.structs

-- What poll reports to the pollers, from the one number `i` on.
unfoldable pub events_of : (ℕ → ℕ) → ℕ → List Poller → List (ℕ × PollFd)
events_of revents i [] = []
events_of revents i (p ∷ ps) =
    let rest = events_of revents (i + 1) ps in
    if revents i == 0
    then rest
    else (p.number, record { fd = p.descriptor; events = p.events; revents = revents i }) ∷ rest

abbrev filled : List Poller → List PollFd
filled [] = []
filled (p ∷ ps) = record { fd = p.descriptor; events = p.events; revents = 0 } ∷ filled ps

assign_loop-filled :
    (ps : List Poller) (ss : List PollFd)
    → length ss ≡ length ps
    → assign_loop ps ss ≡ some (filled ps)
unfolding assign_loop assign
assign_loop-filled [] [] e = refl
assign_loop-filled [] (s ∷ ss) e = absurd (omega (arith, e))
assign_loop-filled (p ∷ ps) [] e = absurd (omega (arith, e))
assign_loop-filled (p ∷ ps) (s ∷ ss) e = ground (arith, assign_loop-filled ps ss (omega (arith, e)))

eq_ℤ_self : (d : ℤ) → eq_ℤ d d ≡ true
eq_ℤ_self (pos a) = ground arith
eq_ℤ_self (negsuc a) = ground arith

process_loop-events_of :
    (revents : ℕ → ℕ) (i : ℕ) (ps : List Poller)
    → process_loop ps (answered revents i (filled ps)) ≡ some (events_of revents i ps)
unfolding process_loop process answered events_of
process_loop-events_of revents i [] = refl
process_loop-events_of revents i (p ∷ ps) =
    ground (arith, process_loop-events_of revents (i + 1) ps, eq_ℤ_self p.descriptor)

length-answered :
    (revents : ℕ → ℕ) (i : ℕ) (ps : List Poller)
    → length (answered revents i (filled ps)) ≡ length ps
unfolding answered
length-answered revents i [] = refl
length-answered revents i (p ∷ ps) = ap suc (length-answered revents (i + 1) ps)

-- What a call of poll signals.
abbrev pub reported : ℤ → (ℕ → ℕ) → List Poller → List (ℕ × PollFd)
reported result revents ps = if eq_ℤ result (pos 0) then [] else events_of revents 0 ps

none_reported :
    (result : ℤ) (revents : ℕ → ℕ) (ps : List Poller)
    → length ps ≡ 0
    → reported result revents ps ≡ []
unfolding events_of
none_reported result revents [] e = ground arith
none_reported result revents (p ∷ ps) e = absurd (omega (arith, e))

-- The polling after a call of poll that has pollers.
abbrev polled : ℤ → (ℕ → ℕ) → Polling → Polling
polled result revents g = record g {
  structs = answered revents 0 (filled g.pollers);
  processed = g.processed ++ reported result revents g.pollers;
}

poll-polled :
    (result : ℤ) (revents : ℕ → ℕ) (g : Polling)
    → IsSized g
    → (length g.structs == 0) ≡ false
    → poll result revents g ≡ some (result, polled result revents g)
unfolding poll
poll-polled result revents g e n =
    ground
      (arith, assign_loop-filled g.pollers g.structs e, process_loop-events_of revents 0 g.pollers)

poll_empty :
    (result : ℤ) (revents : ℕ → ℕ) (g : Polling)
    → (length g.structs == 0) ≡ true
    → poll result revents g ≡ some (pos 0, g)
unfolding poll
poll_empty result revents g n = ground arith

-- Poll keeps the pollers and signals to each, in order, the event that the system reports at its place,
-- with its descriptor; it does not read out of the list.
pub poll-reported :
    (result : ℤ) (revents : ℕ → ℕ) (g : Polling)
    → IsSized g
    → (r : ℤ) × (h : Polling) × (poll result revents g ≡ some (r, h))
      × (h.pollers ≡ g.pollers)
      × (h.processed ≡ g.processed ++ reported result revents g.pollers)
      × IsSized h
poll-reported result revents g e = elim (Bool-cases (length g.structs == 0)) [
  | inl n ↦ (
    pos 0,
    g,
    poll_empty result revents g n,
    refl,
    sym (append-nil g.processed)
        ∙ ap (λ (t : List (ℕ × PollFd)). g.processed ++ t)
            (sym (none_reported result revents g.pollers (ground (arith, e)))),
    e,
  )
  | inr n ↦ (
    result,
    polled result revents g,
    poll-polled result revents g e n,
    refl,
    refl,
    length-answered revents 0 g.pollers,
  )
]

-- What is asked of a polling.
pub data Op : Type 0 where
  register : Poller → Op
  unregister : ℕ → Op
  turn : ℤ → (ℕ → ℕ) → Op

unfoldable pub step : Op → Polling → Option Polling
step (register p) g = some (register_poller p g).1
step (unregister n) g = some (unregister_poller n g).1
step (turn result revents) g = elim (poll result revents g) [ none ↦ none | some r ↦ some (r.1) ]

unfoldable pub run : List Op → Polling → Option Polling
run [] g = some g
run (o ∷ os) g = elim (step o g) [ none ↦ none | some h ↦ run os h ]

-- The events of a sequence of operations, from the list of the pollers alone.
unfoldable pub expected : List Op → List Poller → List (ℕ × PollFd)
expected [] ps = []
expected (register p ∷ os) ps = expected os (with_poller p ps)
expected (unregister n ∷ os) ps = expected os (remove_all n ps)
expected (turn result revents ∷ os) ps =
    let rest = expected os ps in reported result revents ps ++ rest

-- No sequence of operations reads out of a list, each poller has its structure after it, and the events
-- that were signalled are, in order, those of each call of poll for the pollers registered then.
pub run-expected :
    (os : List Op) (g : Polling)
    → IsSized g
    → (h : Polling) × (run os g ≡ some h)
      × IsSized h
      × (h.processed ≡ g.processed ++ expected os g.pollers)
unfolding run step expected register_poller unregister_poller
run-expected [] g e = (g, refl, e, sym (append-nil g.processed))
run-expected (register p ∷ os) g e =
    run-expected os (register_poller p g).1 (register_poller-IsSized p g)
run-expected (unregister n ∷ os) g e =
    run-expected os (unregister_poller n g).1 (unregister_poller-IsSized n g)
run-expected (turn result revents ∷ os) g e =
    let (r, k, q, ps, ev, sized) = poll-reported result revents g e in
    let (h, q2, sized2, ev2) = run-expected os k sized in
    (
      h,
      ap
            (λ (o : Option (ℤ × Polling)).
              elim (elim o as (λ x. Option Polling) [ none ↦ none | some s ↦ some (s.1) ])
                as (λ x. Option Polling) [ none ↦ none | some s ↦ run os s ])
            q
          ∙ q2,
      sized2,
      ev2
          ∙ ap₂ (λ (t : List (ℕ × PollFd)) (l : List Poller). t ++ expected os l) ev ps
          ∙ append_assoc g.processed (reported result revents g.pollers) (expected os g.pollers),
    )
