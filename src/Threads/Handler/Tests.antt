-- ===== src/Threads/Handler/Tests.antt =====
-- Runs of the theorems on handlers: a client that connects, loses its connection and connects again.
use threader.Prelude.{◌≡◌, ◌≢◌, refl, arith, true, false, some, none, [], ◌∷◌, ◌++◌}
use threader.Utils.Sockets.{
  done, fails, made, ClientCalls, open_tcp_client_socket, connect_client, einprogress,
}
use threader.Threads.Handler.{
  Handler, connected, new_handler, set_state, change_state, emit, PollFd, known, unknown,
  open_socket, process, error_code,
}
use threader.Threads.Handler.Connection.{held, IsConsistent}
use threader.Threads.Handler.Diagram.{IsTraced}
use threader.Threads.Handler.Reach.{
  Reach, start, later, Step, opens, polled, given, IsOrderly, AreOrderly, Reach-IsConsistent,
}
use threader.Threads.Handler.Reopen.{Device, event, before_wait, turns}
use threader.Threads.Handler.Retry.{IsStuck, turns-IsStuck, turns-connected}

abbrev calls : ClientCalls
calls = record {
  resolve = done;
  create = made 7;
  nonblocking = done;
  send_timeout = done;
  receive_timeout = done;
  syn_count = done;
  connect = fails einprogress;
}

abbrev refused_calls : ClientCalls
refused_calls = record calls { connect = fails 111 }

abbrev ready : PollFd
ready = record {
  fd = some 7;
  wants_out = true;
  revents = record { error = false; hang_up = false; out = true; input = false };
}

abbrev lost : PollFd
lost = record {
  fd = some 5;
  wants_out = false;
  revents = record { error = false; hang_up = true; out = false; input = true };
}

abbrev opened : Handler
opened = (open_socket 0 (open_tcp_client_socket calls) (new_handler none)).1

abbrev established : Handler
established = (process 0 (known 0) ready opened).1

-- A client that is opened and then connected.
way : Reach 0 none established ((held none ++ given calls) ++ [])
unfolding new_handler set_state change_state emit
way =
    let begun : Reach 0 none (new_handler none) (held none) = start in
    let first : Step 0 (new_handler none) (given calls) opened = opens calls in
    let second : Step 0 opened [] established = polled 0 (known 0) ready in
    later (later begun first) second

way-AreOrderly : AreOrderly way
unfolding AreOrderly IsOrderly way new_handler set_state change_state emit
way-AreOrderly = ((omega arith, refl), omega arith)

Reach-IsConsistent_example : IsConsistent established × IsTraced established
Reach-IsConsistent_example = Reach-IsConsistent way way-AreOrderly

-- A client connected through the socket 5.
abbrev device : Device
device = record {
  handler = record {
    descriptor = some 5;
    state = connected;
    is_client = true;
    needs_to_write = false;
    signals = [];
    closed = [];
  };
  reconnect_timeout = 1000;
  next_try_to_connect = 0;
}

abbrev idle_device : Device
idle_device = record device { handler = new_handler none }

gives_socket : (open_tcp_client_socket calls).descriptor ≡ some 7
unfolding open_tcp_client_socket connect_client
gives_socket = refl

gives_progress : (open_tcp_client_socket calls).error ≡ some einprogress
unfolding open_tcp_client_socket connect_client
gives_progress = refl

turns-connected_example :
    let k =
      turns
        (event 10 0 unknown lost
          ∷ before_wait 20 0 calls true
          ∷ before_wait 1010 0 calls false
          ∷ event 1011 0 (known 0) ready
          ∷ [])
        device in
    (k.handler.state ≡ connected) × (k.handler.descriptor ≡ some 7) × (k.handler.closed ≡ 5 ∷ [])
turns-connected_example =
    turns-connected 10 0 5 unknown lost 20 0 calls true 1010 0 7 calls false 1011 0 ready device
      refl refl refl (omega arith) refl refl (omega arith) (omega arith) gives_socket gives_progress
      refl refl refl refl

code_not_zero : error_code 0 (open_tcp_client_socket refused_calls) ≢ 0
unfolding open_tcp_client_socket connect_client
code_not_zero = λ e. absurd (omega arith)

code_not_progress : error_code 0 (open_tcp_client_socket refused_calls) ≢ einprogress
unfolding open_tcp_client_socket connect_client
code_not_progress = λ e. absurd (omega arith)

turns-IsStuck_example :
    IsStuck
      (turns
        (before_wait 5 0 refused_calls false ∷ before_wait 5000 0 calls false ∷ [])
        idle_device).handler
unfolding new_handler set_state change_state emit
turns-IsStuck_example =
    turns-IsStuck 5 0 refused_calls false (before_wait 5000 0 calls false ∷ []) idle_device refl
      refl refl (omega arith) (omega arith) code_not_zero code_not_progress
