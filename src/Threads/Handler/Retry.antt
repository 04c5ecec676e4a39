-- ===== src/Threads/Handler/Retry.antt =====
-- A thread and its handler that lose a connection and open another (Threads/ThreadHandler.cpp with
-- Threads/HandlerTcpSocket.cpp), and an opening after which they never do.
use threader.Prelude.{
  Bool, ℕ, ◌+◌, ◌≤◌, ◌<◌, ◌≡◌, ◌≢◌, ap, ◌∙◌, true, false, none, some, List, [], ◌∷◌, ◌++◌, arith,
}
use threader.Utils.Sockets.{ClientCalls, einprogress, open_tcp_client_socket}
use threader.Threads.Handler.{
  disconnected, connecting, connected, Handler, PollFd, SocketError, known, emit, change_state,
  set_state, set_descriptor, close, open_socket, process_input, process_out, process, error_code,
}
use threader.Threads.Handler.Reopen.{
  Device, on_connection_state_changed, on_signals, run, on_before_wait_events, on_poll, Turn,
  before_wait, event, turn, turns,
}

-- A handler that waits for a connection with no socket.
abbrev pub IsStuck : Handler → Type 0
IsStuck h = (h.state ≡ connecting) × (h.descriptor ≡ none)

-- The call before the wait opens the handler, and gets neither 0 nor EINPROGRESS.
before_wait-IsStuck :
    (now junk : ℕ) (c : ClientCalls) (v : Bool) (d : Device)
    → let code = error_code junk (open_tcp_client_socket c) in
      d.handler.is_client ≡ true
      → d.handler.state ≡ disconnected
      → d.handler.descriptor ≡ none
      → 0 < d.reconnect_timeout
      → d.next_try_to_connect ≤ now
      → code ≢ 0
      → code ≢ einprogress
      → let k = on_before_wait_events now junk c v d in
        IsStuck k.handler × (k.handler.closed ≡ d.handler.closed)
unfolding on_before_wait_events run on_signals on_connection_state_changed open_socket set_state
    change_state emit
before_wait-IsStuck now junk c v d ic st ds rt w n m = ground arith

turn-IsStuck : (t : Turn) (d : Device) → IsStuck d.handler → IsStuck (turn t d).handler
unfolding turn on_before_wait_events on_poll run on_signals process
turn-IsStuck (before_wait now junk c v) d s = ground arith
turn-IsStuck (event now e answer p) d s = ground arith

turns_of-IsStuck : (ts : List Turn) (d : Device) → IsStuck d.handler → IsStuck (turns ts d).handler
unfolding turns
turns_of-IsStuck [] d s = s
turns_of-IsStuck (t ∷ ts) d s = turns_of-IsStuck ts (turn t d) (turn-IsStuck t d s)

-- When the call before the wait opens a client, and `errorCode` is then neither 0 nor EINPROGRESS
-- (because the system refused, or because the connection was made at once and the variable held
-- something), the client is connecting with no socket, and so it is after all later turns and events:
-- none opens it again.
pub turns-IsStuck :
    (now junk : ℕ) (c : ClientCalls) (v : Bool) (ts : List Turn) (d : Device)
    → let code = error_code junk (open_tcp_client_socket c) in
      d.handler.is_client ≡ true
      → d.handler.state ≡ disconnected
      → d.handler.descriptor ≡ none
      → 0 < d.reconnect_timeout
      → d.next_try_to_connect ≤ now
      → code ≢ 0
      → code ≢ einprogress
      → IsStuck (turns (before_wait now junk c v ∷ ts) d).handler
unfolding turns turn
turns-IsStuck now junk c v ts d ic st ds rt w n m =
    turns_of-IsStuck ts (on_before_wait_events now junk c v d)
      (before_wait-IsStuck now junk c v d ic st ds rt w n m).0

-- What a lost connection leaves: no socket, and a time for the next try.
lose :
    (now e s : ℕ) (answer : SocketError) (p : PollFd) (d : Device)
    → d.handler.state ≡ connected
    → d.handler.descriptor ≡ some s
    → p.fd ≡ some s
    → p.revents.hang_up ≡ true
    → let k = on_poll now e answer p d in
      (k.handler.state ≡ disconnected)
      × (k.handler.descriptor ≡ none)
      × (k.handler.is_client ≡ d.handler.is_client)
      × (k.handler.closed ≡ d.handler.closed ++ (s ∷ []))
      × (k.next_try_to_connect ≡ now + d.reconnect_timeout)
      × (k.reconnect_timeout ≡ d.reconnect_timeout)
unfolding on_poll run on_signals on_connection_state_changed process close set_descriptor set_state
    change_state emit
lose now e s answer p d st ds f u = ground arith

-- The next try waits for its time.
early :
    (now junk : ℕ) (c : ClientCalls) (v : Bool) (d : Device)
    → d.handler.state ≡ disconnected
    → now < d.next_try_to_connect
    → on_before_wait_events now junk c v d ≡ d
unfolding on_before_wait_events
early now junk c v d s w = ground arith

reopen :
    (now junk s : ℕ) (c : ClientCalls) (v : Bool) (d : Device)
    → d.handler.is_client ≡ true
    → d.handler.state ≡ disconnected
    → d.handler.descriptor ≡ none
    → 0 < d.reconnect_timeout
    → d.next_try_to_connect ≤ now
    → (open_tcp_client_socket c).descriptor ≡ some s
    → (open_tcp_client_socket c).error ≡ some einprogress
    → let k = on_before_wait_events now junk c v d in
      (k.handler.state ≡ connecting)
      × (k.handler.descriptor ≡ some s)
      × (k.handler.closed ≡ d.handler.closed)
unfolding on_before_wait_events run on_signals on_connection_state_changed open_socket
    set_descriptor set_state change_state emit
reopen now junk s c v d ic st ds rt w os oe = ground arith

establish :
    (now e s : ℕ) (p : PollFd) (d : Device)
    → d.handler.state ≡ connecting
    → d.handler.descriptor ≡ some s
    → p.fd ≡ some s
    → p.revents.error ≡ false
    → p.revents.hang_up ≡ false
    → p.revents.out ≡ true
    → let k = on_poll now e (known 0) p d in
      (k.handler.state ≡ connected)
      × (k.handler.descriptor ≡ some s)
      × (k.handler.closed ≡ d.handler.closed)
unfolding on_poll run on_signals on_connection_state_changed process process_out process_input
    set_state change_state emit
establish now e s p d st ds f er hu ou = ground arith

-- A client that loses its connection connects again: after a hang-up of its socket a turn before the time
-- of the next try changes nothing; a turn at or after that time opens a socket, when the system
-- gives one that is in progress; when poll then reports that one as ready for output and without an
-- error, the client is connected through it, and has closed the lost one.
pub turns-connected :
    (t1 e1 s1 : ℕ) (answer : SocketError) (p1 : PollFd) (t2 j2 : ℕ) (c2 : ClientCalls) (v2 : Bool)
    (t3 j3 s3 : ℕ) (c3 : ClientCalls) (v3 : Bool) (t4 e4 : ℕ) (p4 : PollFd) (d : Device)
    → d.handler.is_client ≡ true
    → d.handler.state ≡ connected
    → d.handler.descriptor ≡ some s1
    → 0 < d.reconnect_timeout
    → p1.fd ≡ some s1
    → p1.revents.hang_up ≡ true
    → t2 < t1 + d.reconnect_timeout
    → t1 + d.reconnect_timeout ≤ t3
    → (open_tcp_client_socket c3).descriptor ≡ some s3
    → (open_tcp_client_socket c3).error ≡ some einprogress
    → p4.fd ≡ some s3
    → p4.revents.error ≡ false
    → p4.revents.hang_up ≡ false
    → p4.revents.out ≡ true
    → let k =
        turns
          (event t1 e1 answer p1
            ∷ before_wait t2 j2 c2 v2
            ∷ before_wait t3 j3 c3 v3
            ∷ event t4 e4 (known 0) p4
            ∷ [])
          d in
      (k.handler.state ≡ connected)
      × (k.handler.descriptor ≡ some s3)
      × (k.handler.closed ≡ d.handler.closed ++ (s1 ∷ []))
unfolding turns turn
turns-connected t1 e1 s1 answer p1 t2 j2 c2 v2 t3 j3 s3 c3 v3 t4 e4 p4 d ic st ds rt f u w2 w3 os oe
      f4 er hu ou =
    let d1 = on_poll t1 e1 answer p1 d in
    let lost = lose t1 e1 s1 answer p1 d st ds f u in
    let d2 = on_before_wait_events t2 j2 c2 v2 d1 in
    let same2 : d2 ≡ d1 = early t2 j2 c2 v2 d1 (lost.0) (omega (arith, lost.4)) in
    let d3 = on_before_wait_events t3 j3 c3 v3 d1 in
    let opened =
      reopen t3 j3 s3 c3 v3 d1 (lost.2 ∙ ic) (lost.0) (lost.1) (omega (arith, lost.5))
        (omega (arith, lost.4)) os oe in
    let done4 = establish t4 e4 s3 p4 d3 (opened.0) (opened.1) f4 er hu ou in
    let back : on_before_wait_events t3 j3 c3 v3 d2 ≡ d3 =
      ap (λ (x : Device). on_before_wait_events t3 j3 c3 v3 x) same2 in
    let end = ap (λ (x : Device). (on_poll t4 e4 (known 0) p4 x).handler) back in
    (
      ap (λ (h : Handler). h.state) end ∙ done4.0,
      ap (λ (h : Handler). h.descriptor) end ∙ done4.1,
      ap (λ (h : Handler). h.closed) end ∙ done4.2 ∙ opened.2 ∙ lost.3,
    )
