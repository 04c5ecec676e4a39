-- ===== src/Frames/Packets/RoundTrip.antt =====
-- Packets that DataFramesPacketFactory builds, as tryExtractPacket finds them
-- (Frames/DataFramesPackets.cpp).
use threader.Prelude.{
  ℕ, ◌+◌, ◌%◌, ◌^◌, ◌≤◌, ◌<◌, ◌≡◌, refl, ap, ◌∙◌, sym, some, List, [], ◌∷◌, ◌++◌, arith, length,
  take, drop, length-append, append_assoc, take-append_self, drop-append_self, drop-drop,
}
use threader.Utils.Crc.{crc16}
use threader.Utils.Crc.Bounds.{crc16-append}
use threader.Frames.Packets.{
  Header, Packet, Factory, header_bytes, read_header, packet_bytes, short, found, find_header,
  extract_body, try_extract_packet,
}
use threader.Frames.Packets.Layout.{IsSized, length-header_bytes, read_header-header_bytes}
use threader.Frames.Packets.Sync.{synchronise, find_header_lem}

-- A packet that its header describes.
pub record IsPacket (p : Packet) : Type 0 where
  pub sized : IsSized p.header
  pub known : p.header.packet_type < 3
  pub size : p.header.size ≡ length p.body
  pub sum : p.header.check_summ ≡ crc16 p.body (p.header.size % 2 ^ 16)

synchronise-found :
    (d : List ℕ)
    → 13 ≤ length d
    → (read_header d).packet_type < 3
    → synchronise d ≡ found (read_header d) d
unfolding synchronise
synchronise-found [] h k = absurd (omega arith)
synchronise-found (x ∷ xs) h k = ground arith

pub synchronise-short : (d : List ℕ) → length d < 13 → synchronise d ≡ short d
unfolding synchronise
synchronise-short [] h = refl
synchronise-short (x ∷ xs) h = ground arith

-- Once the bytes start with a header of a known type the search stops there.
pub try_extract_packet-header :
    (fuel : ℕ) (f : Factory) (h : Header) (rest : List ℕ)
    → IsSized h
    → h.packet_type < 3
    → length (header_bytes h ++ rest) < fuel
    → try_extract_packet fuel f (header_bytes h ++ rest)
      ≡ some (extract_body f h (header_bytes h ++ rest))
unfolding try_extract_packet
try_extract_packet-header fuel f h rest z k n =
    let d = header_bytes h ++ rest in
    let head : read_header d ≡ h = read_header-header_bytes h rest z in
    let long : 13 ≤ length d =
      omega (arith, length-append (header_bytes h) rest, length-header_bytes h) in
    let kind : (read_header d).packet_type < 3 = omega (arith, ap (λ t. t.packet_type) head) in
    let s : find_header fuel d ≡ some (found h d) =
      find_header_lem fuel d n
      ∙ ap some (synchronise-found d long kind)
      ∙ ap (λ t. some (found t d)) head in
    rw (s, try_extract_packet)

pub body-drop : (h : Header) (rest : List ℕ) → drop 13 (header_bytes h ++ rest) ≡ rest
body-drop h rest = drop-append_self 13 (header_bytes h) rest (sym (length-header_bytes h))

extract_body-whole :
    (f : Factory) (p : Packet) (rest : List ℕ)
    → IsPacket p
    → extract_body f p.header (header_bytes p.header ++ (p.body ++ rest)) ≡ (some p, f, rest)
unfolding extract_body
extract_body-whole f p rest v =
    let n = p.header.size in
    let d = header_bytes p.header ++ (p.body ++ rest) in
    let total : length d ≡ 13 + (length p.body + length rest) = omega (
      arith,
      length-append (header_bytes p.header) (p.body ++ rest),
      length-append p.body rest,
      length-header_bytes p.header,
    ) in
    let rest_of : drop 13 d ≡ p.body ++ rest = body-drop p.header (p.body ++ rest) in
    let sum : crc16 (drop 13 d) (n % 2 ^ 16) ≡ p.header.check_summ =
      ap (λ t. crc16 t (n % 2 ^ 16)) rest_of
      ∙ crc16-append p.body rest (n % 2 ^ 16) (omega (arith, v.size))
      ∙ sym v.sum in
    let body : take n (drop 13 d) ≡ p.body =
      ap (take n) rest_of ∙ take-append_self n p.body rest v.size in
    let tail : drop (13 + n) d ≡ rest =
      sym (drop-drop n 13 d) ∙ ap (drop n) rest_of ∙ drop-append_self n p.body rest v.size in
    ground (arith, total, sum, body, tail, v.size)

-- A packet at the front of the received bytes is extracted whole, and the bytes behind it are left.
pub try_extract_packet-packet_bytes :
    (fuel : ℕ) (f : Factory) (p : Packet) (rest : List ℕ)
    → IsPacket p
    → length (packet_bytes p ++ rest) < fuel
    → try_extract_packet fuel f (packet_bytes p ++ rest) ≡ some (some p, f, rest)
unfolding packet_bytes
try_extract_packet-packet_bytes fuel f p rest v n =
    let e : (header_bytes p.header ++ p.body) ++ rest ≡ header_bytes p.header ++ (p.body ++ rest) =
      append_assoc (header_bytes p.header) p.body rest in
    ap (try_extract_packet fuel f) e
    ∙ try_extract_packet-header fuel f p.header (p.body ++ rest) v.sized v.known
        (omega (arith, ap length e))
    ∙ ap some (extract_body-whole f p rest v)
