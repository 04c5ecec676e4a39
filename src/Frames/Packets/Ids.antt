-- ===== src/Frames/Packets/Ids.antt =====
-- The numbers that DataFramesPacketFactory gives to packets, and the packets that it builds
-- (Frames/DataFramesPackets.cpp).
use threader.Prelude.{
  ℕ, ◌%◌, ◌^◌, ◌<◌, ◌≡◌, ◌≢◌, refl, ap, sym, Bool, some, List, ◌++◌, arith, length,
}
use threader.Prelude.Bytes.{IsBytes, le_bytes, length-le_bytes, le_bytes-IsBytes}
use threader.Utils.Crc.{crc16}
use threader.Utils.Crc.Bounds.{crc16-lt}
use threader.Frames.PacketType
use threader.Frames.Packets.{
  Packet, Factory, packet_bytes, try_extract_packet, generate_next_packet_id, build_packet,
  build_packet_ticket, packet_id_empty, data_frames_packet_tag,
}
use threader.Frames.Packets.RoundTrip.{IsPacket, try_extract_packet-packet_bytes}

-- From a factory whose last number is below 0x1FFFFFFF, the next number is not the empty one, is
-- below 0x1FFFFFFF too, differs from the last one, and is the one that the factory keeps; the last
-- result of the factory stays.
pub generate_next_packet_id_lem :
    (f : Factory)
    → f.packet_id < 0x1fffffff
    → let (id, f1) = generate_next_packet_id f in
      (id ≢ packet_id_empty)
      × (id < 0x1fffffff)
      × (id ≢ f.packet_id)
      × (f1.packet_id ≡ id)
      × (f1.last ≡ f.last)
unfolding generate_next_packet_id
generate_next_packet_id_lem f h = ground arith

generate-lt : (f : Factory) → (generate_next_packet_id f).0 < 0x1fffffff
unfolding generate_next_packet_id
generate-lt f = ground arith

-- A packet of fewer than 2 ^ 31 bytes that the factory builds is one that its header describes.
pub build_packet-IsPacket :
    (f : Factory) (body : List ℕ) (generate : Bool)
    → IsBytes body
    → length body < 2 ^ 31
    → IsPacket (build_packet f body generate).0
unfolding build_packet
build_packet-IsPacket f body generate b h =
    let len : length body % 2 ^ 32 ≡ length body = omega arith in
    record {
      sized = record {
        tag_lt = omega arith;
        packet_type_lt = omega arith;
        size_lt = omega arith;
        check_summ_lt = crc16-lt body (length body % 2 ^ 16) b;
        packet_id_lt = ground (arith, generate-lt f);
      };
      known = omega arith;
      size = len;
      sum = ap (λ n. crc16 body (n % 2 ^ 16)) (sym len);
    }

-- A packet that a factory builds of fewer than 2 ^ 31 bytes, with a number or without, is extracted
-- whole from the front of the received bytes by any factory, which leaves the bytes behind it and
-- stays as it is, if there is more fuel than bytes; and its body is the bytes it was built of.
pub try_extract_packet-build_packet :
    (fuel : ℕ) (f g : Factory) (body rest : List ℕ) (generate : Bool)
    → IsBytes body
    → length body < 2 ^ 31
    → let p = (build_packet g body generate).0 in
      length (packet_bytes p ++ rest) < fuel
      → (try_extract_packet fuel f (packet_bytes p ++ rest) ≡ some (some p, f, rest))
        × (p.body ≡ body)
unfolding build_packet
try_extract_packet-build_packet fuel f g body rest generate b h n = (
  try_extract_packet-packet_bytes fuel f (build_packet g body generate).0 rest
      (build_packet-IsPacket g body generate b h) n,
  refl,
)

-- A ticket is built for every number but the empty one; it is a packet of type `Ticket` that its
-- header describes, with the number it acknowledges in four bytes, and with a number of its own.
pub build_packet_ticket_lem :
    (f : Factory) (id : ℕ)
    → id ≢ packet_id_empty
    → (p : Packet) × ((build_packet_ticket f id).0 ≡ some p)
      × IsPacket p
      × (p.header.packet_type ≡ PacketType.ticket)
      × (p.body ≡ le_bytes 4 id)
      × (p.header.packet_id ≡ (generate_next_packet_id f).0)
unfolding build_packet_ticket
build_packet_ticket_lem f id h = (
  record {
    header = record {
      tag = data_frames_packet_tag;
      packet_type = PacketType.ticket;
      size = 4;
      check_summ = crc16 (le_bytes 4 id) 4;
      packet_id = (generate_next_packet_id f).0;
    };
    body = le_bytes 4 id;
  },
  ground arith,
  record {
    sized = record {
      tag_lt = omega arith;
      packet_type_lt = omega arith;
      size_lt = omega arith;
      check_summ_lt = crc16-lt (le_bytes 4 id) 4 (le_bytes-IsBytes 4 id);
      packet_id_lt = omega (arith, generate-lt f);
    };
    known = omega arith;
    size = sym (length-le_bytes 4 id);
    sum = refl;
  },
  refl,
  refl,
  refl,
)
