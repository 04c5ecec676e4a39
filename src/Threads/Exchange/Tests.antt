-- ===== src/Threads/Exchange/Tests.antt =====
-- A run of the theorem on two peers: two packets, taken two bytes and then all at a time, arrive in
-- two calls.
use threader.Prelude.{
  ℕ, ◌≡◌, ◌<◌, refl, arith, true, false, some, List, [], ◌∷◌, length, take, drop, replicate,
  length-replicate, length-take,
}
use threader.Prelude.Int.{ℤ, pos, ◌-ℤ◌, ◌+ℤ◌}
use threader.Prelude.Bytes.{le_bytes}
use threader.Utils.Crc.{crc16, crc16_loop, crc16_round}
use threader.Utils.Crc.Tables.{crc16_table}
use threader.Utils.Stream
use threader.Utils.Stream.Typed.{IsFiller}
use threader.Frames.Packets.{
  Packet, Factory, new, generate_next_packet_id, build_packet, packet_bytes, header_bytes,
}
use threader.Frames.Packets.Ids.{build_packet-IsPacket}
use threader.Threads.Output.{start, buffer, on_ready_to_write, remove_front, send_packet}
use threader.Threads.Output.Delivery.{IsDevice, Devices, step, run}
use threader.Threads.Input.{Input, concat, read_calls}
use threader.Threads.Input.Loop.{ArePackets, stream_of, data_frames_factory}
use threader.Threads.Input.Chunks.{arrived, listening}
use threader.Threads.Exchange.{Sending, sends, ready, calls_of, packets_of, read_calls-run}

abbrev zeros : ℕ → List ℕ
zeros n = replicate n 0

zeros-IsFiller : IsFiller zeros
zeros-IsFiller n = length-replicate n 0

-- A device that takes two bytes at a time, and one that takes all.
abbrev two_bytes : List ℕ → ℤ
two_bytes b = pos (length (take 2 b))

abbrev all_bytes : List ℕ → ℤ
all_bytes b = pos (length b)

two_bytes-IsDevice : IsDevice two_bytes
two_bytes-IsDevice b = omega (arith, length-take 2 b)

all_bytes-IsDevice : IsDevice all_bytes
all_bytes-IsDevice b = omega arith

abbrev packets : List Packet
packets = (build_packet new (1 ∷ []) true).0 ∷ (build_packet new [] false).0 ∷ []

abbrev sendings : List Sending
sendings =
    sends 1 (build_packet new (1 ∷ []) true).0 two_bytes
    ∷ sends 2 (build_packet new [] false).0 two_bytes
    ∷ ready all_bytes
    ∷ []

abbrev calls : List (List (List ℕ))
calls = let d = stream_of packets in (take 5 d ∷ take 9 (drop 5 d) ∷ []) ∷ (drop 14 d ∷ []) ∷ []

sendings-Devices : Devices (calls_of sendings)
unfolding calls_of
sendings-Devices = (two_bytes-IsDevice, (two_bytes-IsDevice, (all_bytes-IsDevice, tt)))

packets-ArePackets : ArePackets (packets_of sendings)
unfolding packets_of
packets-ArePackets = (
  build_packet-IsPacket new (1 ∷ []) true (omega arith, tt) (omega arith),
  (build_packet-IsPacket new [] false tt (omega arith), tt),
)

all_gone : buffer (run zeros (start true 9) (calls_of sendings)) ≡ []
unfolding calls_of run step start send_packet on_ready_to_write remove_front Stream.new Stream.write
    Stream.set_position ◌-ℤ◌ ◌+ℤ◌ packet_bytes header_bytes le_bytes build_packet
    generate_next_packet_id new crc16 crc16_loop crc16_round crc16_table
all_gone = refl

all_arrived : arrived calls ≡ (run zeros (start true 9) (calls_of sendings)).written
unfolding arrived concat stream_of calls_of run step start send_packet on_ready_to_write
    remove_front Stream.new Stream.write Stream.set_position ◌-ℤ◌ ◌+ℤ◌ packet_bytes header_bytes
    le_bytes build_packet generate_next_packet_id new crc16 crc16_loop crc16_round crc16_table
all_arrived = refl

enough : length (packets_of sendings) < 3
unfolding packets_of
enough = omega arith

read_calls-run_example :
    (i : Input Factory Packet) × (read_calls data_frames_factory 3 9
        (listening true [] new [] 0 [])
        calls
      ≡ some i)
    × (i.received ≡ packets)
    × (i.buffer ≡ [])
unfolding packets_of
read_calls-run_example =
    read_calls-run zeros 9 3 true new sendings calls zeros-IsFiller sendings-Devices
      packets-ArePackets enough all_gone all_arrived
