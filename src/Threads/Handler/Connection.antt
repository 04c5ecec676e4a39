-- ===== src/Threads/Handler/Connection.antt =====
-- What the operations of Threads/HandlerBase.cpp and Threads/HandlerTcpSocket.cpp do to the state, the
-- descriptor and the closed sockets.
use threader.Prelude.{
  ℕ, zero, suc, ◌≡◌, refl, Bool, true, false, Option, none, some, List, [], ◌∷◌, ◌++◌, arith,
}
use threader.Utils.Sockets.{Opening}
use threader.Threads.Handler.{
  ConnectionState, disconnected, connecting, connected, Handler, PollFd, SocketError, emit,
  change_state, set_state, set_descriptor, close, new_handler, open_socket, process_input,
  process_out, process,
}

-- The calls of `setConnectionState`, `close` and `setDescriptor` of each other end: more of them change
-- nothing, in every state and for every new one.
pub set_state-suc :
    (n : ℕ) (v : ConnectionState) (h : Handler) → set_state (suc n) v h ≡ set_state 1 v h
unfolding set_state change_state emit
set_state-suc zero v h = refl
set_state-suc (suc n) disconnected h = ground arith
set_state-suc (suc n) connecting h = refl
set_state-suc (suc n) connected h = refl

-- The descriptors held: none or one.
abbrev pub held : Option ℕ → List ℕ
held none = []
held (some d) = d ∷ []

-- A connected handler has a descriptor, and a disconnected one has none.
abbrev pub fits : ConnectionState → Option ℕ → Bool
fits disconnected none = true
fits disconnected (some d) = false
fits connecting d = true
fits connected none = false
fits connected (some d) = true

abbrev pub IsConsistent : Handler → Type 0
IsConsistent h = fits h.state h.descriptor ≡ true

-- What `close` leaves: it disconnects a handler with a descriptor, and closes that.
pub close-some :
    (h : Handler) (d : ℕ)
    → h.descriptor ≡ some d
    → ((close h).descriptor ≡ none)
      × ((close h).state ≡ disconnected)
      × ((close h).closed ≡ h.closed ++ (d ∷ []))
unfolding close set_descriptor set_state change_state emit
close-some h d e = ground arith

pub new_handler-IsConsistent : (d : Option ℕ) → IsConsistent (new_handler d)
unfolding new_handler set_state change_state emit
new_handler-IsConsistent d = ground arith

pub close-IsConsistent : (h : Handler) → IsConsistent h → IsConsistent (close h)
unfolding close set_descriptor set_state change_state emit
close-IsConsistent h c = ground arith

-- Opening keeps that, from a state without a socket, whatever the system answers.
pub open_socket-IsConsistent :
    (junk : ℕ) (o : Opening) (h : Handler)
    → h.state ≡ disconnected
    → IsConsistent h
    → IsConsistent (open_socket junk o h).1
unfolding open_socket set_descriptor set_state change_state emit
open_socket-IsConsistent junk o h e c = ground arith

pub process-IsConsistent :
    (e : ℕ) (answer : SocketError) (p : PollFd) (h : Handler)
    → IsConsistent h
    → IsConsistent (process e answer p h).1
unfolding process process_out process_input close set_descriptor set_state change_state emit
process-IsConsistent e answer p h c = ground arith
