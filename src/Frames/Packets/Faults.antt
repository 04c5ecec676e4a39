-- ===== src/Frames/Packets/Faults.antt =====
-- What DataFramesPacketFactory::tryExtractPacket makes of a part of a packet and of a damaged one
-- (Frames/DataFramesPackets.cpp).
use threader.Prelude.{
  ℕ, ◌+◌, ◌%◌, ◌^◌, ◌<◌, ◌≡◌, ◌≢◌, ap, ◌∙◌, none, some, List, ◌++◌, arith, length, drop,
  length-append,
}
use threader.Utils.Crc.{crc16}
use threader.Utils.Crc.Bounds.{crc16-append}
use threader.Frames.Packets.{
  Header, Factory, not_enough_for_body, bad_check_summ, header_bytes, extract_body,
  try_extract_packet,
}
use threader.Frames.Packets.Layout.{IsSized, length-header_bytes}
use threader.Frames.Packets.RoundTrip.{try_extract_packet-header, body-drop}

extract_body-bad :
    (f : Factory) (h : Header) (body rest : List ℕ)
    → length body ≡ h.size
    → crc16 body (h.size % 2 ^ 16) ≢ h.check_summ
    → extract_body f h (header_bytes h ++ (body ++ rest))
      ≡ (none, record f { last = some bad_check_summ }, header_bytes h ++ (body ++ rest))
unfolding extract_body
extract_body-bad f h body rest size bad =
    let n = h.size in
    let d = header_bytes h ++ (body ++ rest) in
    let total : length d ≡ 13 + (length body + length rest) = omega (
      arith,
      length-append (header_bytes h) (body ++ rest),
      length-append body rest,
      length-header_bytes h,
    ) in
    let sum : crc16 (drop 13 d) (n % 2 ^ 16) ≡ crc16 body (n % 2 ^ 16) =
      ap (λ t. crc16 t (n % 2 ^ 16)) (body-drop h (body ++ rest))
      ∙ crc16-append body rest (n % 2 ^ 16) (omega arith) in
    ground (arith, total, sum)

-- A packet of a known type whose checksum is wrong, with its header's fields within their widths, is
-- reported and stays at the front of the received bytes, whatever bytes follow it, if there is more
-- fuel than bytes.
pub try_extract_packet-bad_check_summ :
    (fuel : ℕ) (f : Factory) (h : Header) (body rest : List ℕ)
    → IsSized h
    → h.packet_type < 3
    → length body ≡ h.size
    → crc16 body (h.size % 2 ^ 16) ≢ h.check_summ
    → length (header_bytes h ++ (body ++ rest)) < fuel
    → try_extract_packet fuel f (header_bytes h ++ (body ++ rest))
      ≡ some (none, record f { last = some bad_check_summ }, header_bytes h ++ (body ++ rest))
try_extract_packet-bad_check_summ fuel f h body rest z k size bad n =
    try_extract_packet-header fuel f h (body ++ rest) z k n
    ∙ ap some (extract_body-bad f h body rest size bad)

extract_body-part :
    (f : Factory) (h : Header) (part : List ℕ)
    → length part < h.size
    → extract_body f h (header_bytes h ++ part)
      ≡ (none, record f { last = some not_enough_for_body }, header_bytes h ++ part)
unfolding extract_body
extract_body-part f h part k =
    let total : length (header_bytes h ++ part) ≡ 13 + length part =
      omega (arith, length-append (header_bytes h) part, length-header_bytes h) in
    ground (arith, total)

-- As long as fewer bytes than a header of a known type announces follow it, with its fields within
-- their widths and more fuel than bytes, the factory reports this and leaves the received bytes as
-- they are.
pub try_extract_packet-part :
    (fuel : ℕ) (f : Factory) (h : Header) (part : List ℕ)
    → IsSized h
    → h.packet_type < 3
    → length part < h.size
    → length (header_bytes h ++ part) < fuel
    → try_extract_packet fuel f (header_bytes h ++ part)
      ≡ some (none, record f { last = some not_enough_for_body }, header_bytes h ++ part)
try_extract_packet-part fuel f h part z t k n =
    try_extract_packet-header fuel f h part z t n ∙ ap some (extract_body-part f h part k)
