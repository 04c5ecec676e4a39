-- ===== src/Threads/Handler/Diagram.antt =====
-- The state changes that Threads/HandlerBase.cpp and Threads/HandlerTcpSocket.cpp signal, against the
-- diagram of the connection states.
use threader.Prelude.{
  ℕ, ◌≡◌, refl, ap, ◌∙◌, Bool, true, false, ◌&&◌, Option, none, some, List, [], ◌∷◌, ◌++◌, arith,
  if◌then◌else◌,
}
use threader.Utils.Sockets.{Opening}
use threader.Threads.Handler.Keeping.{process-keeps}
use threader.Threads.Handler.{
  ConnectionState, disconnected, connecting, connected, Signal, state_changed, ready_read,
  ready_write, error, Handler, PollFd, SocketError, same, emit, change_state, set_state,
  set_descriptor, close, new_handler, open_socket, process, error_code,
}

-- The changes of the diagram.
abbrev pub allowed : ConnectionState → ConnectionState → Bool
allowed disconnected connecting = true
allowed disconnected connected = true
allowed connecting connected = true
allowed connecting disconnected = true
allowed connected disconnected = true
allowed _ _ = false

-- One signal, as an observer in a state reads it; `none` when a change does not start in that state or
-- is not one of the diagram.
abbrev pub observe : Option ConnectionState → Signal → Option ConnectionState
observe none x = none
observe (some s) (state_changed a b) = if same a s && allowed a b then some b else none
observe (some s) ready_read = some s
observe (some s) ready_write = some s
observe (some s) (error e) = some s

-- The state that an observer of the signals is in.
unfoldable pub replay : Option ConnectionState → List Signal → Option ConnectionState
replay o [] = o
replay o (x ∷ xs) = replay (observe o x) xs

pub replay-append :
    (o : Option ConnectionState) (xs : List Signal) (x : Signal)
    → replay o (xs ++ (x ∷ [])) ≡ observe (replay o xs) x
unfolding replay
replay-append o [] x = refl
replay-append o (y ∷ xs) x = replay-append (observe o y) xs x

abbrev pub IsTraced : Handler → Type 0
IsTraced h = replay (some disconnected) h.signals ≡ some h.state

-- Disconnecting and closing, from any state.
pub close-IsTraced : (h : Handler) → IsTraced h → IsTraced (close h)
unfolding close set_descriptor set_state change_state emit
close-IsTraced h t =
    let r = replay-append (some disconnected) h.signals in
    ground
      (arith, r (state_changed connecting disconnected), r (state_changed connected disconnected))

-- A signal that is not a change.
emit-IsTraced :
    (x : Signal) (h : Handler)
    → observe (some h.state) x ≡ some h.state
    → IsTraced h
    → IsTraced (emit x h)
unfolding emit
emit-IsTraced x h q t =
    replay-append (some disconnected) h.signals x
    ∙ ap (λ (o : Option ConnectionState). observe o x) t
    ∙ q

change_state-IsTraced :
    (v : ConnectionState) (h : Handler)
    → allowed h.state v ≡ true
    → IsTraced h
    → IsTraced (change_state v h)
unfolding change_state emit
change_state-IsTraced v h a t =
    ground (arith, replay-append (some disconnected) h.signals (state_changed h.state v))

connect-IsTraced :
    (h : Handler)
    → same h.state connecting ≡ true
    → IsTraced h
    → IsTraced (change_state connected h)
connect-IsTraced h c t =
    let a : allowed h.state connected ≡ true = ground arith in change_state-IsTraced connected h a t

-- The signals of a poll's event, after those of a trace.
pub process-IsTraced :
    (e : ℕ) (answer : SocketError) (p : PollFd) (h : Handler)
    → IsTraced h
    → IsTraced (process e answer p h).1
process-IsTraced =
    process-keeps IsTraced (λ e h. emit-IsTraced (error e) h refl)
      (λ h. emit-IsTraced ready_read h refl) (λ h. emit-IsTraced ready_write h refl) close-IsTraced
      connect-IsTraced

set_descriptor-IsTraced :
    (value : Option ℕ) (h : Handler) → IsTraced h → IsTraced (set_descriptor value h)
unfolding set_descriptor set_state change_state emit
set_descriptor-IsTraced value h t =
    let r = replay-append (some disconnected) h.signals in
    ground (
      arith,
      r (state_changed disconnected connected),
      r (state_changed connecting disconnected),
      r (state_changed connected disconnected),
    )

-- An opening, from the state without a connection.
pub open_socket-IsTraced :
    (junk : ℕ) (o : Opening) (h : Handler)
    → h.state ≡ disconnected
    → IsTraced h
    → IsTraced (open_socket junk o h).1
unfolding open_socket set_state
open_socket-IsTraced junk o h d t =
    let a : allowed h.state connecting ≡ true = ground arith in
    let h1 = change_state connecting h in
    let t1 : IsTraced h1 = change_state-IsTraced connecting h a t in
    let code = error_code junk o in
    ground
      (arith, emit-IsTraced (error code) h1 refl t1, set_descriptor-IsTraced o.descriptor h1 t1)

pub new_handler-IsTraced : (d : Option ℕ) → IsTraced (new_handler d)
unfolding new_handler set_state change_state emit replay
new_handler-IsTraced d = ground arith
