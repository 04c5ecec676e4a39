-- ===== src/Threads/Listen/Life.antt =====
-- The life of a listening thread (Threads/ThreadListenSocket.cpp with Threads/PollerListenSocket.cpp and
-- Utils/SocketUtils.cpp).
use threader.Prelude.{
  ℕ, ◌+◌, ◌≡◌, ◌≤◌, ◌<◌, refl, ap, ◌∙◌, sym, Bool, true, false, ◌||◌, ◌&&◌, Option, some, List, [],
  ◌∷◌, ◌++◌, ◌==◌, ltb, if◌then◌else◌, arith, append-nil, append_assoc,
}
use threader.Utils.Sockets.{ServerCalls, create_tcp_server_socket}
use threader.Threads.Listen.{
  Listener, ListenThread, Revents, new_listener, new_thread, initialize, finalize, process,
  on_before_wait_events, terminate_child_threads, code_of,
}
use threader.Threads.Listen.Accepting.{process_connection_requests-filter}
use threader.Threads.Listen.Sockets.{
  honest, held, is_valid, valids, created, ledger, IsConsistent, ledger-initialize, ledger-finalize,
}

-- What a listening thread is given.
pub data Event : Type 0 where
  before_wait : ℕ → ServerCalls → Event
  polled : (ℕ → Bool) → List ℕ → ℕ → Option ℕ → Revents → Event
  terminates : Event

unfoldable pub step : Event → ListenThread → ListenThread
step (before_wait now c) t = on_before_wait_events now c t
step (polled accepts ss e fd r) t = record t { listener = (process accepts ss e fd r t.listener).1 }
step terminates t = terminate_child_threads t

unfoldable pub run : List Event → ListenThread → ListenThread
run [] t = t
run (e ∷ es) t = run es (step e t)

-- The listening sockets that the system makes.
abbrev pub given : Event → ListenThread → List ℕ
given (before_wait now c) t =
    if t.listener.is_initialized || ltb now t.next_start_listening then [] else created c.create
given (polled accepts ss e fd r) t = []
given terminates t = []

unfoldable pub all_given : List Event → ListenThread → List ℕ
all_given [] t = []
all_given (e ∷ es) t = given e t ++ all_given es (step e t)

abbrev pub honest_event : Event → Bool
honest_event (before_wait now c) = honest c
honest_event (polled accepts ss e fd r) = true
honest_event terminates = true

abbrev pub all_honest : List Event → Bool
all_honest [] = true
all_honest (e ∷ es) = honest_event e && all_honest es

abbrev Kept : Listener → List ℕ → Listener → Type 0
Kept l more k = (ledger k ≡ ledger l ++ more) × IsConsistent k

process-Kept :
    (accepts : ℕ → Bool) (ss : List ℕ) (e : ℕ) (fd : Option ℕ) (r : Revents) (l : Listener)
    → IsConsistent l
    → Kept l [] (process accepts ss e fd r l).1
unfolding process
process-Kept accepts ss e fd r l i =
    let l1 : Listener = if r.error then finalize l else l in
    let f = ledger-finalize l in
    let q = process_connection_requests-filter accepts ss e l1 in
    ground (arith, f, q, append-nil (ledger l))

before_wait-Kept :
    (now : ℕ) (c : ServerCalls) (t : ListenThread)
    → IsConsistent t.listener
    → honest c ≡ true
    → Kept t.listener (given (before_wait now c) t) (on_before_wait_events now c t).listener
unfolding on_before_wait_events
before_wait-Kept now c t i h =
    ground (arith, ledger-initialize c t.listener i h, append-nil (ledger t.listener))

step-Kept :
    (e : Event) (t : ListenThread)
    → IsConsistent t.listener
    → honest_event e ≡ true
    → Kept t.listener (given e t) (step e t).listener
unfolding step terminate_child_threads
step-Kept (before_wait now c) t i h = before_wait-Kept now c t i h
step-Kept (polled accepts ss e fd r) t i h = process-Kept accepts ss e fd r t.listener i
step-Kept terminates t i h =
    let (same, c) = ledger-finalize t.listener in (same ∙ sym (append-nil (ledger t.listener)), c)

run-Kept :
    (es : List Event) (t : ListenThread)
    → IsConsistent t.listener
    → all_honest es ≡ true
    → Kept t.listener (all_given es t) (run es t).listener
unfolding run all_given
run-Kept [] t i h = (sym (append-nil (ledger t.listener)), i)
run-Kept (e ∷ es) t i h =
    let (first, i2) = step-Kept e t i (ground arith) in
    let (rest, i3) = run-Kept es (step e t) i2 (ground arith) in
    (
      rest
          ∙ ap (λ (l : List ℕ). l ++ all_given es (step e t)) first
          ∙ append_assoc (ledger t.listener) (given e t) (all_given es (step e t)),
      i3,
    )

-- Over the life of a listening thread each listening socket that the system made is held or was closed
-- once, in the order they were made, and it is initialized exactly while it holds one, where the
-- system's errors are not 0.
pub run-new_thread :
    (now : ℕ) (es : List Event)
    → all_honest es ≡ true
    → let l = (run es (new_thread now)).listener in
      (valids l.closed ++ held l.descriptor ≡ all_given es (new_thread now))
      × (is_valid l.descriptor ≡ l.is_initialized)
unfolding new_thread new_listener
run-new_thread now es h = run-Kept es (new_thread now) refl h

-- A listening thread whose socket fails signals the error and tries again 30 seconds later and not
-- before; then it listens, where the system gives a socket.
pub on_before_wait_events_retries :
    (now later early : ℕ) (c bad skipped : ServerCalls) (d : ℕ) (t : ListenThread)
    → t.listener.is_initialized ≡ false
    → t.next_start_listening ≤ now
    → let o = create_tcp_server_socket false bad in
      (code_of o == 0) ≡ false
      → early < now + 30000
      → now + 30000 ≤ later
      → (create_tcp_server_socket false c).descriptor ≡ some d
      → (code_of (create_tcp_server_socket false c) == 0) ≡ true
      → let u = on_before_wait_events now bad t in
        (on_before_wait_events early skipped u ≡ u)
        × (u.listener.errors ≡ t.listener.errors ++ (code_of o ∷ []))
        × ((on_before_wait_events later c u).listener.descriptor ≡ some d)
        × ((on_before_wait_events later c u).listener.is_initialized ≡ true)
unfolding on_before_wait_events initialize
on_before_wait_events_retries now later early c bad skipped d t n w b es ls s ok = ground arith
