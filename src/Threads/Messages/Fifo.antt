-- ===== src/Threads/Messages/Fifo.antt =====
-- Messages leave a QueueMessages in the order in which they came (Threads/QueueMessages.cpp).
use threader.Prelude.{
  ℕ, ◌≡◌, refl, ap, ◌∙◌, sym, true, false, Option, none, some, List, [], ◌∷◌, ◌++◌, append_assoc,
  append-nil, arith,
}
use threader.Prelude.Int.{ℤ, pos, negsuc}
use threader.Threads.Messages.{
  QueueMessages, lock, count, enqueue, enqueue_list, dequeue, dequeue_all, wants_all, dequeue_count,
}

-- The calls of the threads that share the queue, in the order in which they hold the mutex.
pub data Call : Type 0 where
  post : ℕ → Call
  post_list : List ℕ → Call
  take_one take_all counts : Call

-- What a call takes out.
abbrev pub taken : Option ℕ → List ℕ
taken none = []
taken (some m) = m ∷ []

-- A call: the messages that it puts in, those that it takes out, and the queue behind it.
unfoldable pub step : QueueMessages → Call → Option (List ℕ × List ℕ × QueueMessages)
step q (post m) = elim (enqueue m q) [ none ↦ none | some r ↦ some (m ∷ [], [], r.1) ]
step q (post_list ms) = elim (enqueue_list ms q) [ none ↦ none | some r ↦ some (ms, [], r.1) ]
step q take_one = elim (dequeue q) [ none ↦ none | some r ↦ some ([], taken r.0, r.1) ]
step q take_all = elim (dequeue_all q) [ none ↦ none | some r ↦ some ([], r.0, r.1) ]
step q counts = elim (count q) [ none ↦ none | some r ↦ some ([], [], r.1) ]

unfoldable pub run : QueueMessages → List Call → Option (List ℕ × List ℕ × QueueMessages)
run q [] = some ([], [], q)
run q (c ∷ cs) = elim (step q c) [
  | none ↦ none
  | some r ↦ elim (run r.2 cs) [ none ↦ none | some t ↦ some (r.0 ++ t.0, r.1 ++ t.1, t.2) ]
]

-- What a call makes of an unlocked queue.
record Moved (ms : List ℕ) (r : List ℕ × List ℕ × QueueMessages) : Type 0 where
  pub free : r.2.locked ≡ false
  pub order : ms ++ r.0 ≡ r.1 ++ r.2.queue

abbrev pub unlocked : List ℕ → QueueMessages
unlocked ms = record { queue = ms; locked = false }

step-Moved :
    (ms : List ℕ) (c : Call)
    → (r : List ℕ × List ℕ × QueueMessages) × (step (unlocked ms) c ≡ some r) × Moved ms r
unfolding step enqueue enqueue_list dequeue dequeue_all count
step-Moved ms (post m) = (_, refl, record { free = refl; order = refl })
step-Moved ms (post_list xs) = (_, refl, record { free = refl; order = refl })
step-Moved [] take_one = (_, refl, record { free = refl; order = refl })
step-Moved (m ∷ ms) take_one = (_, refl, record { free = refl; order = append-nil (m ∷ ms) })
step-Moved ms take_all = (_, refl, record { free = refl; order = refl })
step-Moved ms counts = (_, refl, record { free = refl; order = append-nil ms })

run-cons :
    (q : QueueMessages) (c : Call) (cs : List Call) (r t : List ℕ × List ℕ × QueueMessages)
    → step q c ≡ some r
    → run r.2 cs ≡ some t
    → run q (c ∷ cs) ≡ some (r.0 ++ t.0, r.1 ++ t.1, t.2)
unfolding run
run-cons q c cs r t e f = rw (e, run) (rw f refl)

-- On a queue whose mutex is free, any calls of the threads that share it, `dequeue(int)` apart, all
-- return and leave the mutex free, and the messages that were there followed by those put in are, in
-- this order, those taken out followed by those still in the queue.
pub run-fifo :
    (ms : List ℕ) (cs : List Call)
    → (r : List ℕ × List ℕ × QueueMessages) × (run (unlocked ms) cs ≡ some r)
      × (r.2.locked ≡ false)
      × (ms ++ r.0 ≡ r.1 ++ r.2.queue)
unfolding run
run-fifo ms [] = (([], [], unlocked ms), refl, refl, append-nil ms)
run-fifo ms (c ∷ cs) =
    let (r, e, m) = step-Moved ms c in
    let q : r.2 ≡ unlocked (r.2.queue) =
      ap (λ b. record { queue = r.2.queue; locked = b }) m.free in
    let (t, e1, f, o) = run-fifo (r.2.queue) cs in
    let e2 : run r.2 cs ≡ some t = rw (q, e1) in
    (
      (r.0 ++ t.0, r.1 ++ t.1, t.2),
      run-cons (unlocked ms) c cs r t e e2,
      f,
      sym (append_assoc ms r.0 t.0)
          ∙ ap (λ x. x ++ t.0) m.order
          ∙ append_assoc r.1 (r.2.queue) t.0
          ∙ ap (λ x. r.1 ++ x) o
          ∙ sym (append_assoc r.1 t.1 (t.2.queue)),
    )

wants_all-true : (count : ℤ) (ms : List ℕ) → wants_all count ms ≡ true
unfolding wants_all
wants_all-true (pos n) ms = ground arith
wants_all-true (negsuc n) ms = ground arith

-- `dequeue(int)` never returns, whatever the number and the messages, if the mutex is free when
-- it is called.
pub dequeue_count-deadlock : (count : ℤ) (ms : List ℕ) → dequeue_count count (unlocked ms) ≡ none
unfolding dequeue_count lock dequeue_all
dequeue_count-deadlock count ms = rw (wants_all-true count ms) refl
