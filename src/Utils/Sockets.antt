-- ===== src/Utils/Sockets.antt =====
-- Utils/SocketUtils.cpp: the functions that make a socket on Linux. The answers of the operating
-- system, with the `errno` of a call that fails, are arguments; errno of a call is read before the
-- next call. A descriptor is a number, and `none` is INVALID_DESCRIPTOR.
pub mod Leaks
mod Tests
use threader.Prelude.{ℕ, Bool, true, false, Option, none, some, List, [], ◌∷◌, ◌==◌, if◌then◌else◌}

pub data Answer : Type 0 where
  done : Answer
  fails : ℕ → Answer

-- What `socket` answers.
pub data Creation : Type 0 where
  made : ℕ → Creation
  refused : ℕ → Creation

-- The system calls of `openTcpClientSocket`, in their order.
pub record ClientCalls : Type 0 where
  pub resolve : Answer
  pub create : Creation
  pub nonblocking : Answer
  pub send_timeout : Answer
  pub receive_timeout : Answer
  pub syn_count : Answer
  pub connect : Answer

-- The system calls of `createTcpServerSocket`.
pub record ServerCalls : Type 0 where
  pub create : Creation
  pub reuse : Answer
  pub nonblocking : Answer
  pub bind : Answer
  pub listen : Answer

-- `error` is what is assigned to the caller's `errorCode`, if it is; `closed` are the descriptors
-- given to `closeSocket`; `info_held` says that the list of getaddrinfo is not freed.
pub record Opening : Type 0 where
  pub descriptor : Option ℕ
  pub error : Option ℕ
  pub closed : List (Option ℕ)
  pub info_held : Bool

-- EINPROGRESS
abbrev pub einprogress : ℕ
einprogress = 115

abbrev failed : Opening → ℕ → List (Option ℕ) → Opening
failed o e closed = record o { descriptor = none; error = some e; closed = closed }

-- The error path after `socket`: the socket is closed; otherwise the opening goes on.
abbrev after : Opening → ℕ → Answer → Opening → Opening
after o d done rest = rest
after o d (fails e) rest = failed o e (some d ∷ [])

abbrev start : Option ℕ → Opening
start error = record { descriptor = none; error = error; closed = []; info_held = false }

-- The end of `openTcpClientSocket`
unfoldable pub connect_client : ℕ → Answer → Opening
connect_client d done = record (start none) { descriptor = some d; info_held = true }
connect_client d (fails e) =
    if e == einprogress
    then record (start (some e)) { descriptor = some d }
    else failed (start none) e (some d ∷ [])

-- `openTcpClientSocket`
unfoldable pub open_tcp_client_socket : ClientCalls → Opening
open_tcp_client_socket c = elim c.resolve [
  | fails e ↦ failed (start none) e []
  | done ↦ elim c.create [
    | refused e ↦ failed (start none) e []
    | made d ↦ after (start none) d c.nonblocking (
        after (start none) d c.send_timeout (
          after (start none) d c.receive_timeout
            (after (start none) d c.syn_count (connect_client d c.connect))))
  ]
]

abbrev opened : ℕ → Opening
opened d = record (start (some 0)) { descriptor = some d }

-- `createTcpServerSocket`
unfoldable pub create_tcp_server_socket : Bool → ServerCalls → Opening
create_tcp_server_socket is_blocking c = elim c.create [
  | refused e ↦ failed (start (some 0)) e (none ∷ [])
  | made d ↦ after (start (some 0)) d c.reuse (
      after (start (some 0)) d (if is_blocking then done else c.nonblocking)
        (after (start (some 0)) d c.bind (after (start (some 0)) d c.listen (opened d))))
]

-- `createUdpSocket`, from the answers to `socket` and `bind`
unfoldable pub create_udp_socket : Creation → Answer → Opening
create_udp_socket (refused e) bind = failed (start (some 0)) e []
create_udp_socket (made d) bind = after (start (some 0)) d bind (opened d)
