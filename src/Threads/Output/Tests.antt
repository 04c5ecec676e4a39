-- ===== src/Threads/Output/Tests.antt =====
-- Runs of the theorems on the sending side at concrete packets and devices.
use threader.Prelude.{
  ℕ, ◌≡◌, arith, true, false, List, [], ◌∷◌, ◌++◌, length, take, replicate, length-replicate,
  length-take,
}
use threader.Prelude.Int.{ℤ, pos, negsuc}
use threader.Utils.Stream.Core.{at}
use threader.Utils.Stream.Typed.{IsFiller}
use threader.Threads.Output.{start, buffer, send_packet, on_connection_state_changed}
use threader.Threads.Output.Delivery.{
  Call, sends, ready, IsDevice, accepted, open_output, run, run-start-in_order,
  send_packet-on_connection_state_changed,
}

abbrev zeros : ℕ → List ℕ
zeros n = replicate n 0

zeros-IsFiller : IsFiller zeros
zeros-IsFiller n = length-replicate n 0

-- A device that takes two bytes at a time, one that takes all, and one that fails.
abbrev two_bytes : List ℕ → ℤ
two_bytes b = pos (length (take 2 b))

abbrev all_bytes : List ℕ → ℤ
all_bytes b = pos (length b)

abbrev broken : List ℕ → ℤ
broken b = negsuc 0

two_bytes-IsDevice : IsDevice two_bytes
two_bytes-IsDevice b = omega (arith, length-take 2 b)

all_bytes-IsDevice : IsDevice all_bytes
all_bytes-IsDevice b = omega arith

broken-IsDevice : IsDevice broken
broken-IsDevice b = omega arith

abbrev calls : List Call
calls = sends 3 (1 ∷ 2 ∷ 3 ∷ []) two_bytes ∷ ready broken ∷ sends 4 (4 ∷ 5 ∷ []) two_bytes ∷ []

run-start-in_order_example :
    let o = run zeros (start true 0) calls in
    (o.written ++ buffer o ≡ 1 ∷ 2 ∷ 3 ∷ 4 ∷ 5 ∷ [])
    × (o.stream ≡ at (buffer o) (length (buffer o)))
unfolding accepted
run-start-in_order_example =
    run-start-in_order zeros zeros-IsFiller 0 calls
      (two_bytes-IsDevice, (broken-IsDevice, (two_bytes-IsDevice, tt)))

send_packet-on_connection_state_changed_example :
    let lost = on_connection_state_changed 5 (open_output (7 ∷ 8 ∷ []) [] 1) false in
    let again = on_connection_state_changed 5 lost true in
    send_packet zeros 5 again (1 ∷ []) all_bytes ≡ (true, open_output [] (0 ∷ 0 ∷ 1 ∷ []) 5)
send_packet-on_connection_state_changed_example =
    send_packet-on_connection_state_changed zeros 5 all_bytes (7 ∷ 8 ∷ []) [] (1 ∷ []) 1
      zeros-IsFiller all_bytes-IsDevice (omega arith)
