-- ===== src/Threads/Handler/Reopen.antt =====
-- Threads/ThreadHandler.cpp: a thread opens its handler again. The slots change the thread and not the
-- handler, so they are run after the operation that emits the signals.
use threader.Prelude.{Bool, ℕ, ◌+◌, ◌&&◌, List, [], ◌∷◌, ltb, leb, if◌then◌else◌}
use threader.Utils.Sockets.{ClientCalls, open_tcp_client_socket}
use threader.Threads.Handler.{
  ConnectionState, disconnected, connected, Signal, state_changed, ready_read, ready_write, error,
  Handler, PollFd, SocketError, same, close, open_socket, process,
}

-- The buffers of the thread stand with Threads/Output and Threads/Input.
pub record Device : Type 0 where
  pub handler : Handler
  pub reconnect_timeout : ℕ
  pub next_try_to_connect : ℕ

-- `slotOnConnectionStateChanged` at the time `now`, for the time of the next try
unfoldable pub on_connection_state_changed : ℕ → ConnectionState → Device → Device
on_connection_state_changed now new d =
    if same new disconnected
    then record d { next_try_to_connect = now + d.reconnect_timeout }
    else d

unfoldable pub on_signals : ℕ → List Signal → Device → Device
on_signals now [] d = d
on_signals now (state_changed a b ∷ xs) d = on_signals now xs (on_connection_state_changed now b d)
on_signals now (ready_read ∷ xs) d = on_signals now xs d
on_signals now (ready_write ∷ xs) d = on_signals now xs d
on_signals now (error e ∷ xs) d = on_signals now xs d

-- An operation of the handler with the slots; `signals` are those of the operation.
unfoldable pub run : ℕ → (Handler → Handler) → Device → Device
run now f d =
    let h = f (record (d.handler) { signals = [] }) in
    on_signals now h.signals (record d { handler = h })

-- `setHandler`
unfoldable pub set_handler : ℕ → ℕ → ℕ → Handler → Device
set_handler now timeout next_try h =
    let d : Device = record {
      handler = h;
      reconnect_timeout = timeout;
      next_try_to_connect = next_try;
    } in
    if same h.state disconnected then d else on_connection_state_changed now h.state d

-- `onBeforeWaitEvents`; `waiting` says that the output buffer is then not empty.
unfoldable pub on_before_wait_events : ℕ → ℕ → ClientCalls → Bool → Device → Device
on_before_wait_events now junk c waiting d =
    let d1 =
      if ltb 0 d.reconnect_timeout
        && same d.handler.state disconnected
        && leb d.next_try_to_connect now
      then run now (λ h. (open_socket junk (open_tcp_client_socket c) h).1) d
      else d in
    if same d1.handler.state disconnected
    then d1
    else record d1 { handler = record (d1.handler) { needs_to_write = waiting } }

-- `process` of the handler, called by the thread's polling
unfoldable pub on_poll : ℕ → ℕ → SocketError → PollFd → Device → Device
on_poll now e answer p d = run now (λ h. (process e answer p h).1) d

-- `terminateChildThreads`, for the handler
unfoldable pub terminate_child_threads : ℕ → Device → Device
terminate_child_threads now d = if same d.handler.state connected then run now close d else d

-- A turn of the thread's loop: the call before the wait, or an event.
pub data Turn : Type 0 where
  before_wait : ℕ → ℕ → ClientCalls → Bool → Turn
  event : ℕ → ℕ → SocketError → PollFd → Turn

unfoldable pub turn : Turn → Device → Device
turn (before_wait now junk c waiting) d = on_before_wait_events now junk c waiting d
turn (event now e answer p) d = on_poll now e answer p d

unfoldable pub turns : List Turn → Device → Device
turns [] d = d
turns (t ∷ ts) d = turns ts (turn t d)
