-- ===== src/Threads/Handler.antt =====
-- Threads/HandlerBase.cpp and Threads/HandlerTcpSocket.cpp for Linux, with the part of
-- Threads/ThreadHandler.cpp that opens the device again. A descriptor is a number, and `none` is
-- INVALID_DESCRIPTOR. The answers of the operating system are arguments.
pub mod Connection
pub mod Keeping
pub mod Diagram
pub mod Reach
pub mod Ledger
pub mod Reopen
pub mod Retry
mod Tests
use threader.Prelude.{
  ℕ, zero, suc, ◌+◌, Bool, true, false, ◌&&◌, ◌||◌, not, Option, none, some, List, [], ◌∷◌, ◌++◌,
  ◌==◌, ltb, leb, if◌then◌else◌,
}
use threader.Utils.Sockets.{Opening, einprogress}

-- `ConnectionState`
pub data ConnectionState : Type 0 where
  disconnected : ConnectionState
  connecting : ConnectionState
  connected : ConnectionState

abbrev pub same : ConnectionState → ConnectionState → Bool
same disconnected disconnected = true
same connecting connecting = true
same connected connected = true
same _ _ = false

-- The signals of HandlerBase.
pub data Signal : Type 0 where
  state_changed : ConnectionState → ConnectionState → Signal
  ready_read : Signal
  ready_write : Signal
  error : ℕ → Signal

-- `signals` are the signals that were emitted and `closed` the descriptors given to `closeSocket`,
-- both in order. `is_client` is the socket's type.
pub record Handler : Type 0 where
  pub descriptor : Option ℕ
  pub state : ConnectionState
  pub is_client : Bool
  pub needs_to_write : Bool
  pub signals : List Signal
  pub closed : List ℕ

-- What poll reports of a descriptor: POLLERR or POLLNVAL, POLLHUP or POLLRDHUP, POLLOUT, POLLIN.
pub record Revents : Type 0 where
  pub error : Bool
  pub hang_up : Bool
  pub out : Bool
  pub input : Bool

-- `wants_out` says that POLLOUT is among the events waited for.
pub record PollFd : Type 0 where
  pub fd : Option ℕ
  pub wants_out : Bool
  pub revents : Revents

abbrev pub is_valid : Option ℕ → Bool
is_valid none = false
is_valid (some d) = true

abbrev pub same_fd : Option ℕ → Option ℕ → Bool
same_fd none none = true
same_fd (some d) (some e) = d == e
same_fd _ _ = false

unfoldable pub emit : Signal → Handler → Handler
emit s h = record h { signals = h.signals ++ (s ∷ []) }

-- The end of `setConnectionState`.
unfoldable pub change_state : ConnectionState → Handler → Handler
change_state v h =
    if same v h.state then h else emit (state_changed h.state v) (record h { state = v })

-- `setConnectionState`, `close` and `setDescriptor` call each other; the first argument is how often.
-- `setDescriptor` reads the descriptor it has just set.
unfoldable pub set_state : ℕ → ConnectionState → Handler → Handler
set_state zero v h = change_state v h
set_state (suc n) v h =
    let inner : Handler = elim h.descriptor [
      | none ↦ h
      | some d ↦
          set_state n disconnected (record h { descriptor = none; closed = h.closed ++ (d ∷ []) })
    ] in
    change_state v (if same v disconnected then inner else h)

-- `setConnectionState`
abbrev pub set_connection_state : ConnectionState → Handler → Handler
set_connection_state v h = set_state 1 v h

-- `setDescriptor`
unfoldable pub set_descriptor : Option ℕ → Handler → Handler
set_descriptor value h =
    let h1 = record h { descriptor = value } in
    if is_valid value
    then (if same h.state connecting then h1 else set_connection_state connected h1)
    else set_connection_state disconnected h1

-- `close`
unfoldable pub close : Handler → Handler
close h = elim h.descriptor [
  | none ↦ h
  | some d ↦ set_descriptor none (record h { closed = h.closed ++ (d ∷ []) })
]

-- The constructors of HandlerBase and of HandlerTcpSocket.
unfoldable pub new_handler : Option ℕ → Handler
new_handler d =
    let h = set_connection_state (if is_valid d then connected else disconnected) (record {
      descriptor = d;
      state = disconnected;
      is_client = not (is_valid d);
      needs_to_write = false;
      signals = [];
      closed = [];
    }) in
    if is_valid d then set_connection_state connected h else h

-- The destructor of HandlerTcpSocket.
unfoldable pub destroy : Handler → Handler
destroy h = if same h.state disconnected then h else close h

-- `setDeviceName`, without the name
unfoldable pub set_device_name : Handler → Handler
set_device_name h = if same h.state disconnected then h else close h

-- `errorCode` after the opening: `junk` is what the variable holds when nothing is assigned.
abbrev pub error_code : ℕ → Opening → ℕ
error_code junk o = elim o.error [ none ↦ junk | some e ↦ e ]

-- `open`
unfoldable pub open_socket : ℕ → Opening → Handler → Bool × Handler
open_socket junk o h =
    let h1 = set_connection_state connecting h in
    let code = error_code junk o in
    if h.is_client
    then (
      is_valid o.descriptor,
      if not (code == 0) && not (code == einprogress)
          then emit (error code) h1
          else set_descriptor o.descriptor h1,
    )
    else (false, h)

-- `assign`
unfoldable pub assign : Handler → PollFd → PollFd
assign h p = if same h.state disconnected then p else record {
  fd = h.descriptor;
  wants_out = h.needs_to_write || same h.state connecting;
  revents = record { error = false; hang_up = false; out = false; input = false };
}

-- What getsockopt says of SO_ERROR: nothing, or the error, 0 for none.
pub data SocketError : Type 0 where
  unknown : SocketError
  known : ℕ → SocketError

abbrev pub is_ready : SocketError → Bool
is_ready unknown = false
is_ready (known e) = e == 0

-- The end of `process`, for POLLIN.
unfoldable pub process_input : Revents → Handler → Handler
process_input r h = if r.input then emit ready_read h else h

-- `process` from the test of POLLOUT on; `e` is what `lastError` gives.
unfoldable pub process_out : ℕ → SocketError → Revents → Handler → Bool × Handler
process_out e answer r h =
    if r.out
    then (if same h.state connecting
        then (if is_ready answer
            then (true, process_input r (emit ready_write (set_connection_state connected h)))
            else (false, close (emit (error e) h)))
        else (true, process_input r (emit ready_write h)))
    else (true, process_input r h)

-- `process`
unfoldable pub process : ℕ → SocketError → PollFd → Handler → Bool × Handler
process e answer p h =
    let h1 = if p.revents.error then close (emit (error e) h) else h in
    if same h.state disconnected || not (is_valid h.descriptor)
    then (false, h)
    else if not (same_fd p.fd h.descriptor)
    then (false, h)
    else if p.revents.hang_up
    then (true, close (emit ready_read h1))
    else process_out e answer p.revents h1
