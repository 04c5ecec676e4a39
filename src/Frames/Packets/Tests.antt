-- ===== src/Frames/Packets/Tests.antt =====
-- Runs of the theorems on DataFramesPacketFactory at concrete packets.
use threader.Prelude.{ℕ, ◌≡◌, ◌≢◌, ◌<◌, refl, true, none, some, List, [], ◌∷◌, ◌++◌, arith, length}
use threader.Prelude.Bytes.{le_bytes}
use threader.Utils.Crc.{crc16, crc16_loop, crc16_round}
use threader.Utils.Crc.Tables.{crc16_table}
use threader.Frames.Packets.{
  Header, Packet, new, bad_check_summ, header_bytes, packet_bytes, find_header, try_extract_packet,
  build_packet,
}
use threader.Frames.Packets.Layout.{IsSized}
use threader.Frames.Packets.Sync.{synchronise, find_header_lem}
use threader.Frames.Packets.Faults.{try_extract_packet-bad_check_summ}
use threader.Frames.Packets.Ids.{try_extract_packet-build_packet}

abbrev body : List ℕ
body = 1 ∷ 2 ∷ []

abbrev built : Packet
built = (build_packet new body true).0

-- The header of a packet of two bytes with the checksum 0.
abbrev header : Header
header = record { tag = 0x5a5a; packet_type = 1; size = 2; check_summ = 0; packet_id = 9 }

header-IsSized : IsSized header
header-IsSized = record {
  tag_lt = omega arith;
  packet_type_lt = omega arith;
  size_lt = omega arith;
  check_summ_lt = omega arith;
  packet_id_lt = omega arith;
}

built-length : length (packet_bytes built ++ (3 ∷ [])) < 20
unfolding packet_bytes build_packet header_bytes le_bytes
built-length = omega arith

header-length : (part : List ℕ) → length part < 7 → length (header_bytes header ++ part) < 20
unfolding header_bytes le_bytes
header-length part h = omega arith

wrong_sum : crc16 body 2 ≢ 0
unfolding crc16 crc16_loop crc16_round crc16_table
wrong_sum e = let v : crc16 body 2 ≡ 0x0e7c = refl in absurd (omega (arith, v, e))

try_extract_packet-build_packet_example :
    (try_extract_packet 20 new (packet_bytes built ++ (3 ∷ [])) ≡ some (some built, new, 3 ∷ []))
    × (built.body ≡ body)
try_extract_packet-build_packet_example =
    try_extract_packet-build_packet 20 new new body (3 ∷ []) true (omega arith, (omega arith, tt))
      (omega arith) built-length

find_header_lem_example : find_header 20 (7 ∷ 7 ∷ 9 ∷ body) ≡ some (synchronise (7 ∷ 7 ∷ 9 ∷ body))
find_header_lem_example = find_header_lem 20 (7 ∷ 7 ∷ 9 ∷ body) (omega arith)

try_extract_packet-bad_check_summ_example :
    try_extract_packet 20 new (header_bytes header ++ (body ++ (3 ∷ [])))
    ≡ some
        (none, record new { last = some bad_check_summ }, header_bytes header ++ (body ++ (3 ∷ [])))
try_extract_packet-bad_check_summ_example =
    try_extract_packet-bad_check_summ 20 new header body (3 ∷ []) header-IsSized (omega arith) refl
      wrong_sum (header-length (body ++ (3 ∷ [])) (omega arith))
