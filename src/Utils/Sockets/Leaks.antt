-- ===== src/Utils/Sockets/Leaks.antt =====
-- Which sockets are left open by the functions of Utils/SocketUtils.cpp that make one, and what they
-- say of it.
use threader.Prelude.{
  ℕ, ◌≡◌, Bool, Option, none, some, true, false, ◌||◌, ◌==◌, List, [], ◌∷◌, ◌++◌, arith,
}
use threader.Utils.Sockets.{
  Opening, Answer, done, Creation, made, refused, ClientCalls, ServerCalls, einprogress,
  connect_client, open_tcp_client_socket, create_tcp_server_socket, create_udp_socket,
}

-- The descriptors that `socket` made.
abbrev pub created : Creation → List (Option ℕ)
created (made d) = some d ∷ []
created (refused e) = []

abbrev pub returned : Opening → List (Option ℕ)
returned o = elim o.descriptor [ none ↦ [] | some d ↦ some d ∷ [] ]

-- Whether the error fits the descriptor: with a socket it is not assigned, 0 or EINPROGRESS, and
-- without one it is assigned.
abbrev pub fits : Option ℕ → Option ℕ → Bool
fits none none = false
fits none (some e) = true
fits (some d) none = true
fits (some d) (some e) = e == 0 || e == einprogress

-- A client socket that was made is returned or closed, and not both, on every path; the error that is
-- assigned fits the descriptor.
pub open_tcp_client_socket-created :
    (c : ClientCalls)
    → c.resolve ≡ done
    → let o = open_tcp_client_socket c in
      (returned o ++ o.closed ≡ created c.create) × (fits o.descriptor o.error ≡ true)
unfolding open_tcp_client_socket connect_client
open_tcp_client_socket-created c h = ground arith

-- The same for a socket of a server, when it was made, and for one for datagrams.
pub create_tcp_server_socket-created :
    (is_blocking : Bool) (c : ServerCalls) (d : ℕ)
    → c.create ≡ made d
    → let o = create_tcp_server_socket is_blocking c in
      (returned o ++ o.closed ≡ some d ∷ []) × (fits o.descriptor o.error ≡ true)
unfolding create_tcp_server_socket
create_tcp_server_socket-created b c d h = ground arith

pub create_udp_socket-created :
    (create : Creation) (bind : Answer)
    → let o = create_udp_socket create bind in
      (returned o ++ o.closed ≡ created create) × (fits o.descriptor o.error ≡ true)
unfolding create_udp_socket
create_udp_socket-created create bind = ground arith
