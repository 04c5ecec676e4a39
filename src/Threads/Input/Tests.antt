-- ===== src/Threads/Input/Tests.antt =====
-- A run of the theorem on the receiving side: two packets in three pieces.
use threader.Prelude.{ℕ, ◌≡◌, refl, arith, true, false, some, List, [], ◌∷◌, take, drop}
use threader.Prelude.Bytes.{le_bytes}
use threader.Utils.Crc.{crc16, crc16_loop, crc16_round}
use threader.Utils.Crc.Tables.{crc16_table}
use threader.Frames.Packets.{
  generate_next_packet_id, Packet, Factory, new, build_packet, packet_bytes, header_bytes,
}
use threader.Frames.Packets.Ids.{build_packet-IsPacket}
use threader.Threads.Input.{Input, concat, read_calls}
use threader.Threads.Input.Loop.{ArePackets, stream_of, data_frames_factory}
use threader.Threads.Input.Chunks.{arrived, listening, read_calls-stream_of}

abbrev packets : List Packet
packets = (build_packet new (1 ∷ 2 ∷ []) true).0 ∷ (build_packet new [] false).0 ∷ []

packets-ArePackets : ArePackets packets
packets-ArePackets = (
  build_packet-IsPacket new (1 ∷ 2 ∷ []) true (omega arith, (omega arith, tt)) (omega arith),
  (build_packet-IsPacket new [] false tt (omega arith), tt),
)

-- Two calls: one reads two pieces, the other one the rest.
abbrev calls : List (List (List ℕ))
calls = let d = stream_of packets in (take 5 d ∷ take 9 (drop 5 d) ∷ []) ∷ (drop 14 d ∷ []) ∷ []

whole_stream : arrived calls ≡ stream_of packets
unfolding arrived concat stream_of packet_bytes header_bytes le_bytes build_packet
    generate_next_packet_id new crc16 crc16_loop crc16_round crc16_table
whole_stream = refl

read_calls-stream_of_example :
    (i : Input Factory Packet) × (read_calls data_frames_factory 3 7
        (listening true [] new [] 0 [])
        calls
      ≡ some i)
    × (i.received ≡ packets)
    × (i.buffer ≡ [])
read_calls-stream_of_example =
    read_calls-stream_of 3 7 true new packets calls packets-ArePackets (omega arith) whole_stream
