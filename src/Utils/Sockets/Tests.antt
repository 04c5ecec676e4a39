-- ===== src/Utils/Sockets/Tests.antt =====
-- A run of an opening of Utils/SocketUtils.cpp.
use threader.Prelude.{◌≡◌, refl, some, none, []}
use threader.Prelude.{◌∷◌}
use threader.Utils.Sockets.{done, fails, made, ClientCalls, open_tcp_client_socket, connect_client}

-- The peer refuses the connection.
abbrev refused_calls : ClientCalls
refused_calls = record {
  resolve = done;
  create = made 7;
  nonblocking = done;
  send_timeout = done;
  receive_timeout = done;
  syn_count = done;
  connect = fails 111;
}

refused_closed :
    let o = open_tcp_client_socket refused_calls in
    (o.descriptor ≡ none) × (o.error ≡ some 111) × (o.closed ≡ some 7 ∷ [])
unfolding open_tcp_client_socket connect_client
refused_closed = (refl, refl, refl)
