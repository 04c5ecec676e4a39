-- ===== src/Frames/PacketType.antt =====
-- `enum class PacketType : uint8_t` of Frames/DataFramesPackets.h: a byte of the header, which may
-- hold a value that the enumeration does not name.
use threader.Prelude.{ℕ}

abbrev pub packet_without_ticket : ℕ
packet_without_ticket = 0

abbrev pub packet_needs_ticket : ℕ
packet_needs_ticket = 1

abbrev pub ticket : ℕ
ticket = 2

abbrev pub maximum_value : ℕ
maximum_value = 3
