-- ===== src/Frames/Packets.antt =====
-- Frames/DataFramesPackets.h and Frames/DataFramesPackets.cpp: packets and the factory that builds
-- them and finds them in received bytes. A header is 13 packed bytes, its integers low byte first.
-- The loop that looks for a header runs on fuel. The factory's `_packetId` and last result are its
-- state; the receive buffer is an argument and a result.
pub mod Layout
pub mod Sync
pub mod RoundTrip
pub mod Faults
pub mod Ids
mod Tests
use threader.Prelude.{
  ℕ, zero, suc, ◌+◌, ◌-◌, ◌%◌, ◌^◌, Bool, true, false, Option, none, some, List, [], ◌∷◌, ◌++◌, ltb,
  leb, ◌==◌, if◌then◌else◌, length, take, drop,
}
use threader.Prelude.Bytes.{le_bytes, le_value}
use threader.Utils.Stream.{c_string}
use threader.Utils.Crc.{crc16}
use threader.Frames.PacketType

abbrev pub data_frames_packet_tag : ℕ
data_frames_packet_tag = 0x5a5a

abbrev pub packet_id_empty : ℕ
packet_id_empty = 0

pub record Header : Type 0 where
  pub tag : ℕ
  pub packet_type : ℕ
  pub size : ℕ
  pub check_summ : ℕ
  pub packet_id : ℕ

abbrev pub header_size : ℕ
header_size = 13

-- The header as it lies in memory.
unfoldable pub header_bytes : Header → List ℕ
header_bytes h =
    le_bytes 2 h.tag
    ++ (le_bytes 1 h.packet_type
        ++ (le_bytes 4 h.size ++ (le_bytes 2 h.check_summ ++ le_bytes 4 h.packet_id)))

-- `*reinterpret_cast<DataFramesPacketHeader *>(…)`
unfoldable pub read_header : List ℕ → Header
read_header d = record {
  tag = le_value (take 2 d);
  packet_type = le_value (take 1 (drop 2 d));
  size = le_value (take 4 (drop 3 d));
  check_summ = le_value (take 2 (drop 7 d));
  packet_id = le_value (take 4 (drop 9 d));
}

pub record Packet : Type 0 where
  pub header : Header
  pub body : List ℕ

-- What `DataFramesPacket::write` puts on the stream.
unfoldable pub packet_bytes : Packet → List ℕ
packet_bytes p = header_bytes p.header ++ p.body

abbrev pub set_packet_id : Packet → ℕ → Packet
set_packet_id p i = record p { header = record (p.header) { packet_id = i } }

abbrev pub set_packet_type : Packet → ℕ → Packet
set_packet_type p t = record p { header = record (p.header) { packet_type = t } }

pub data FactoryResult : Type 0 where
  header_not_found not_enough_for_header not_enough_for_body bad_check_summ : FactoryResult

pub record Factory : Type 0 where
  pub packet_id : ℕ
  pub last : Option FactoryResult

unfoldable pub new : Factory
new = record { packet_id = 0; last = none }

-- `PacketFactoryBase::lastResult` does not return what `setLastResult` keeps.
unfoldable pub last_result : Factory → ℕ
last_result f = 0

unfoldable pub starts_with : List ℕ → List ℕ → Bool
starts_with [] d = true
starts_with (p ∷ ps) [] = false
starts_with (p ∷ ps) (x ∷ xs) = let rest = starts_with ps xs in if p == x then rest else false

-- `QByteArray::indexOf` of a text: the first position at which it stands.
unfoldable pub index_of : List ℕ → List ℕ → Option ℕ
index_of pattern_ [] = if starts_with pattern_ [] then some 0 else none
index_of pattern_ (x ∷ xs) =
    let later : Option ℕ = elim (index_of pattern_ xs) [ none ↦ none | some i ↦ some (i + 1) ] in
    if starts_with pattern_ (x ∷ xs) then some 0 else later

-- The characters of the literal `"\0x5A\0x5A"`; as a C string it ends at the first zero.
abbrev pub tag_literal : List ℕ
tag_literal = 0 ∷ 0x78 ∷ 0x35 ∷ 0x41 ∷ 0 ∷ 0x78 ∷ 0x35 ∷ 0x41 ∷ []

-- How the search for a header ends, with the bytes that it leaves.
pub data Search : Type 0 where
  missing : List ℕ → Search
  short : List ℕ → Search
  found : Header → List ℕ → Search

-- The loop of `tryExtractPacket` on fuel: `none` if the fuel runs out.
unfoldable pub find_header : ℕ → List ℕ → Option Search
find_header zero d = none
find_header (suc fuel) d = elim (index_of (c_string tag_literal) d) [
  | none ↦ some (missing d)
  | some p ↦
      let d1 = drop p d in
      let again = find_header fuel (drop 1 d1) in
      let h = read_header d1 in
      if ltb (length d1) header_size
      then some (short d1)
      else if leb PacketType.maximum_value h.packet_type
      then again
      else some (found h d1)
]

-- What `tryExtractPacket` does once a header is found.
unfoldable pub extract_body : Factory → Header → List ℕ → Option Packet × Factory × List ℕ
extract_body f h d =
    if ltb (length d) (header_size + h.size)
    then (none, record f { last = some not_enough_for_body }, d)
    else if crc16 (drop header_size d) (h.size % 2 ^ 16) == h.check_summ
    then (
      some (record { header = h; body = take h.size (drop header_size d) }),
      f,
      drop (header_size + h.size) d,
    )
    else (none, record f { last = some bad_check_summ }, d)

unfoldable pub try_extract_packet : ℕ → Factory → List ℕ → Option (Option Packet × Factory × List ℕ)
try_extract_packet fuel f d = elim (find_header fuel d) [
  | none ↦ none
  | some s ↦ elim s [
    | missing d1 ↦ some (none, record f { last = some header_not_found }, d1)
    | short d1 ↦ some (none, record f { last = some not_enough_for_header }, d1)
    | found h d1 ↦ some (extract_body f h d1)
  ]
]

unfoldable pub generate_next_packet_id : Factory → ℕ × Factory
generate_next_packet_id f =
    let next = (f.packet_id + 1) % 2 ^ 32 in
    let id : ℕ = if leb 0x1fffffff next then 1 else next in (id, record f { packet_id = id })

unfoldable pub build_packet : Factory → List ℕ → Bool → Packet × Factory
build_packet f body generate =
    let r : ℕ × Factory = if generate then generate_next_packet_id f else (packet_id_empty, f) in
    (
      record {
        header = record {
          tag = data_frames_packet_tag;
          packet_type = PacketType.packet_needs_ticket;
          size = length body % 2 ^ 32;
          check_summ = crc16 body (length body % 2 ^ 16);
          packet_id = r.0;
        };
        body = body;
      },
      r.1,
    )

-- Of the frame: whether it has a definition, and whether this wants a ticket; and what
-- `DataFrame::write` puts on an empty stream.
unfoldable pub build_packet_from_frame :
    Factory → Option Bool → List ℕ → Bool → Option Packet × Factory
build_packet_from_frame f none body generate = (none, f)
build_packet_from_frame f (some needs_ticket) body generate =
    let (p, f1) = build_packet f body generate in
    (
      some (
          set_packet_type p (
            if needs_ticket
            then PacketType.packet_needs_ticket
            else PacketType.packet_without_ticket)),
      f1,
    )

unfoldable pub build_packet_ticket : Factory → ℕ → Option Packet × Factory
build_packet_ticket f id =
    let (next, f1) = generate_next_packet_id f in
    let p : Packet = record {
      header = record {
        tag = data_frames_packet_tag;
        packet_type = PacketType.ticket;
        size = 4;
        check_summ = crc16 (le_bytes 4 id) 4;
        packet_id = next;
      };
      body = le_bytes 4 id;
    } in
    if packet_id_empty == id then (none, f) else (some p, f1)
