-- ===== src/Threads/Handler/Reach.antt =====
-- The handlers that sequences of operations reach (Threads/HandlerTcpSocket.cpp), with the sockets
-- that the system made for them. `open` itself has no test of the state: that a handler is opened only
-- while it is disconnected, as ThreadHandler does, is a condition on the sequence.
use threader.Prelude.{ℕ, ◌≡◌, ◌≤◌, Bool, Option, List, [], ◌++◌, if◌then◌else◌}
use threader.Utils.Sockets.{ClientCalls, open_tcp_client_socket}
use threader.Threads.Handler.{
  disconnected, Handler, PollFd, SocketError, close, new_handler, open_socket, process,
}
use threader.Threads.Handler.Connection.{
  held, IsConsistent, close-IsConsistent, new_handler-IsConsistent, open_socket-IsConsistent,
  process-IsConsistent,
}
use threader.Threads.Handler.Diagram.{
  IsTraced, close-IsTraced, new_handler-IsTraced, open_socket-IsTraced, process-IsTraced,
}

-- The sockets that an opening returns.
abbrev pub given : ClientCalls → List ℕ
given c = held ((open_tcp_client_socket c).descriptor)

-- One operation, with the sockets that the handler is given. `junk` is what `errorCode` of `open` holds
-- before a call that does not assign it.
pub data Step (junk : ℕ) : Handler → List ℕ → Handler → Type 0 where
  opens :
      (c : ClientCalls) {h : Handler}
      → Step junk h
          (if h.is_client then given c else [])
          (open_socket junk (open_tcp_client_socket c) h).1
  polled :
      (e : ℕ) (answer : SocketError) (p : PollFd) {h : Handler}
      → Step junk h [] (process e answer p h).1
  closes : {h : Handler} → Step junk h [] (close h)
  needs : (w : Bool) {h : Handler} → Step junk h [] (record h { needs_to_write = w })

-- The handlers that are made with the descriptor `d`, and the sockets given to them so far.
pub data Reach (junk : ℕ) (d : Option ℕ) : Handler → List ℕ → Type 0 where
  start : Reach junk d (new_handler d) (held d)
  later :
      {h k : Handler} {l m : List ℕ} → Reach junk d h l → Step junk h m k → Reach junk d k (l ++ m)

-- A handler that is opened is disconnected.
unfoldable pub IsOrderly : {junk : ℕ} {h k : Handler} {m : List ℕ} → Step junk h m k → Type 0
IsOrderly (opens c {h}) = h.state ≡ disconnected
IsOrderly (polled e answer p) = 0 ≤ 0
IsOrderly closes = 0 ≤ 0
IsOrderly (needs w) = 0 ≤ 0

-- Every opening on the way finds the handler disconnected.
unfoldable pub AreOrderly :
    {junk : ℕ} {d : Option ℕ} {h : Handler} {l : List ℕ} → Reach junk d h l → Type 0
AreOrderly start = 0 ≤ 0
AreOrderly (later r s) = AreOrderly r × IsOrderly s

Step-IsConsistent :
    {junk : ℕ} {h k : Handler} {m : List ℕ} (s : Step junk h m k)
    → IsOrderly s
    → IsConsistent h
    → IsConsistent k
unfolding IsOrderly
Step-IsConsistent {junk} (opens c {h}) d i =
    open_socket-IsConsistent junk (open_tcp_client_socket c) h d i
Step-IsConsistent (polled e answer p {h}) d i = process-IsConsistent e answer p h i
Step-IsConsistent (closes {h}) d i = close-IsConsistent h i
Step-IsConsistent (needs w) d i = i

Step-IsTraced :
    {junk : ℕ} {h k : Handler} {m : List ℕ} (s : Step junk h m k)
    → IsOrderly s
    → IsTraced h
    → IsTraced k
unfolding IsOrderly
Step-IsTraced {junk} (opens c {h}) d i = open_socket-IsTraced junk (open_tcp_client_socket c) h d i
Step-IsTraced (polled e answer p {h}) d i = process-IsTraced e answer p h i
Step-IsTraced (closes {h}) d i = close-IsTraced h i
Step-IsTraced (needs w) d i = i

-- A handler that is opened only while it is disconnected, as ThreadHandler does, has, whatever else is
-- done with it, a descriptor when it is connected and none when it is disconnected, and an observer of
-- its signals is in its state: each change starts where the one before it ended, and is one of the
-- diagram.
pub Reach-IsConsistent :
    {junk : ℕ} {d : Option ℕ} {h : Handler} {l : List ℕ} (r : Reach junk d h l)
    → AreOrderly r
    → IsConsistent h × IsTraced h
unfolding AreOrderly
Reach-IsConsistent {d} start o = (new_handler-IsConsistent d, new_handler-IsTraced d)
Reach-IsConsistent (later r s) (o, d) =
    let (i, t) = Reach-IsConsistent r o in (Step-IsConsistent s d i, Step-IsTraced s d t)
