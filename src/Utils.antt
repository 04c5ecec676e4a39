-- ===== src/Utils.antt =====
-- The library's Utils: typed streams over byte arrays, checksums, lists of addresses, sockets and a counter
-- of traffic.
pub mod Stream
pub mod Crc
pub mod IpMask
pub mod Sockets
pub mod Traffic
