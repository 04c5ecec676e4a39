-- ===== src/Threads/Listen.antt =====
-- Threads/PollerListenSocket.cpp for Linux and Threads/ThreadListenSocket.cpp: a thread that listens for
-- connections. A descriptor is a number, and `none` is INVALID_DESCRIPTOR. The answers of the system and
-- what the owner says of a connection are arguments.
pub mod Accepting
pub mod Sockets
pub mod Life
mod Tests
use threader.Prelude.{
  ℕ, ◌+◌, Bool, true, false, ◌||◌, not, Option, none, some, List, [], ◌∷◌, ◌++◌, ◌==◌, ltb,
  if◌then◌else◌,
}
use threader.Utils.Sockets.{Opening, ServerCalls, create_tcp_server_socket}

-- `errors` are the errors that were signalled; `closed` are the listening sockets given to
-- `closeSocket`; `accepted` and `rejected` are the connections that the owner took, and those that were
-- closed because it did not.
pub record Listener : Type 0 where
  pub is_initialized : Bool
  pub descriptor : Option ℕ
  pub listens : Bool
  pub errors : List ℕ
  pub closed : List (Option ℕ)
  pub accepted : List ℕ
  pub rejected : List ℕ

unfoldable pub new_listener : Listener
new_listener = record {
  is_initialized = false;
  descriptor = none;
  listens = false;
  errors = [];
  closed = [];
  accepted = [];
  rejected = [];
}

abbrev pub code_of : Opening → ℕ
code_of o = elim o.error [ none ↦ 0 | some e ↦ e ]

-- `initialize`
unfoldable pub initialize : ServerCalls → Listener → Bool × Listener
initialize c l =
    let o = create_tcp_server_socket false c in
    let l1 = record l { descriptor = o.descriptor; closed = l.closed ++ o.closed } in
    if l.is_initialized
    then (true, l)
    else if code_of o == 0
    then (true, record l1 { is_initialized = true; listens = true })
    else (false, record l1 { is_initialized = false; errors = l.errors ++ (code_of o ∷ []) })

-- `finalizeLinux`
unfoldable pub finalize_linux : Listener → Listener
finalize_linux l = elim l.descriptor [
  | none ↦ l
  | some d ↦ record l { descriptor = none; listens = false; closed = l.closed ++ (some d ∷ []) }
]

-- `finalize`
unfoldable pub finalize : Listener → Listener
finalize l = record (finalize_linux l) { is_initialized = false }

-- EWOULDBLOCK
abbrev pub ewouldblock : ℕ
ewouldblock = 11

-- `processConnectionRequests`: `accept` gives the sockets and then fails with `e`.
unfoldable pub process_connection_requests : (ℕ → Bool) → List ℕ → ℕ → Listener → ℕ × Listener
process_connection_requests accepts [] e l =
    if e == ewouldblock then (0, l) else (1, record l { errors = l.errors ++ (e ∷ []) })
process_connection_requests accepts (s ∷ ss) e l =
    let l1 =
      if accepts s
      then record l { accepted = l.accepted ++ (s ∷ []) }
      else record l { rejected = l.rejected ++ (s ∷ []) } in
    let (n, l2) = process_connection_requests accepts ss e l1 in (n + 1, l2)

-- What poll reports: POLLERR and POLLIN.
pub record Revents : Type 0 where
  pub error : Bool
  pub input : Bool

abbrev same_fd : Option ℕ → Option ℕ → Bool
same_fd none none = true
same_fd (some d) (some e) = d == e
same_fd _ _ = false

-- `process`
unfoldable pub process : (ℕ → Bool) → List ℕ → ℕ → Option ℕ → Revents → Listener → Bool × Listener
process accepts ss e fd r l =
    let l1 = if r.error then finalize l else l in
    let l2 = if r.input then (process_connection_requests accepts ss e l1).1 else l1 in
    if not (same_fd l.descriptor fd) then (false, l) else (true, l2)

-- `ThreadListenSocket`; `started` counts the calls of `registerPoller`.
pub record ListenThread : Type 0 where
  pub listener : Listener
  pub next_start_listening : ℕ
  pub started : ℕ

unfoldable pub new_thread : ℕ → ListenThread
new_thread now = record { listener = new_listener; next_start_listening = now; started = 0 }

-- `onBeforeWaitEvents`
unfoldable pub on_before_wait_events : ℕ → ServerCalls → ListenThread → ListenThread
on_before_wait_events now c t =
    let (done, l) = initialize c t.listener in
    if t.listener.is_initialized || ltb now t.next_start_listening
    then t
    else if done
    then record t { listener = l; started = t.started + 1 }
    else record t { listener = l; next_start_listening = now + 30000 }

-- `terminateChildThreads`, for the listener
unfoldable pub terminate_child_threads : ListenThread → ListenThread
terminate_child_threads t = record t { listener = finalize t.listener }
