-- ===== src/Threads/DataFrames/Tests.antt =====
-- Runs of the theorems on ThreadDataFrames at a thread with two queued packets.
use threader.Prelude.{ℕ, ◌≡◌, refl, true, none, some, List, [], ◌∷◌, ◌==◌, if◌then◌else◌, arith}
use threader.Prelude.Int.{pos, negsuc}
use threader.Frames.Packets.{Packet}
use threader.Threads.DataFrames.{Thread, start, id_of, apply_ticket}
use threader.Threads.DataFrames.Waiting.{IsValid}
use threader.Threads.DataFrames.Calls.{
  Call, connects, sends, processes, receives, run, run-start-IsValid,
}
use threader.Threads.DataFrames.Acknowledge.{first, apply_ticket-current, apply_ticket-zero}

abbrev packet_with : ℕ → Packet
packet_with id = record {
  header = record { tag = 0x5a5a; packet_type = 1; size = 0; check_summ = 0xffff; packet_id = id };
  body = [];
}

-- The first packet of the queue has the number 3, the second waits.
abbrev packets : ℕ → Packet
packets r = if r == 0 then packet_with 3 else packet_with 0

abbrev two_packets : Thread
two_packets = record {
  factory = record { packet_id = 3; last = none };
  store = packets;
  next_ref = 2;
  queue = some (0 ∷ 1 ∷ []);
  current = some 0;
  next_packet_id = negsuc 0;
  is_connected = true;
  last_packet_sent = 10;
  events = [];
}

two_packets-IsValid : IsValid two_packets
two_packets-IsValid = (
  omega arith,
  ((omega arith, (omega arith, omega arith)), (refl, (λ e. absurd (omega (arith, e))), (refl, tt))),
)

abbrev calls : List Call
calls =
    connects
    ∷ sends 1 (some true) (4 ∷ [])
    ∷ sends 2 (some true) (5 ∷ [])
    ∷ receives 3 (packet_with 6) (some 1)
    ∷ processes 9000
    ∷ []

run-start-IsValid_example : IsValid (run (start (pos 5) packets true true 0) calls)
run-start-IsValid_example = run-start-IsValid (pos 5) packets true true 0 calls

apply_ticket-current_example :
    let (n, s1) = apply_ticket 20 two_packets (id_of packets 0) in
    (n ≡ pos 1) × (s1.queue ≡ some (1 ∷ [])) × (s1.current ≡ first (1 ∷ []))
apply_ticket-current_example =
    apply_ticket-current 20 two_packets 0 (1 ∷ []) two_packets-IsValid refl refl

apply_ticket-zero_example :
    let (n, s1) = apply_ticket 20 two_packets 0 in
    (n ≡ pos 1) × (s1.queue ≡ some (0 ∷ [])) × (s1.current ≡ some 0)
apply_ticket-zero_example = apply_ticket-zero 20 two_packets 0 1 [] two_packets-IsValid refl refl
