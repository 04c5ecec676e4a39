-- ===== src/Utils/Crc.antt =====
-- Utils/CrcUtils.cpp: the table-driven checksums. A block is the list of its bytes.
pub mod Tables
pub mod Bitwise
pub mod Bounds
mod Tests
use threader.Prelude.{
  ℕ, zero, suc, ◌+◌, ◌-◌, ◌*◌, ◌/◌, ◌%◌, ◌^◌, bit_xor, bit_and, Bool, List, [], ◌∷◌, ltb,
  if◌then◌else◌, get_or, take, length,
}
use threader.Prelude.Int.{ℤ, pos, negsuc}
use Tables.{crc8_table, crc16_table, crc32_table}

-- `Crc8`: `len` is an `unsigned char`, so a caller's length is taken mod 256.
unfoldable pub crc8_loop : ℕ → List ℕ → ℕ
unfolding crc8_table
crc8_loop crc [] = crc
crc8_loop crc (b ∷ bs) = crc8_loop (get_or crc8_table (bit_xor crc b) 0) bs

unfoldable pub crc8 : List ℕ → ℕ → ℕ
crc8 block len = crc8_loop 0 (take (len % 256) block)

-- One round of both `Crc16`.
unfoldable pub crc16_round : ℕ → ℕ → ℕ
unfolding crc16_table
crc16_round crc b = bit_xor (crc * 256 % 2 ^ 16) (get_or crc16_table (bit_xor (crc / 256) b) 0)

unfoldable pub crc16_loop : ℕ → List ℕ → ℕ
crc16_loop crc [] = crc
crc16_loop crc (b ∷ bs) = crc16_loop (crc16_round crc b) bs

-- `Crc16(start, data, count)`: a count that is not positive leaves `start`.
unfoldable pub crc16_from : ℕ → List ℕ → ℤ → ℕ
crc16_from start block (pos count) = crc16_loop start (take count block)
crc16_from start block (negsuc count) = start

-- `Crc16(data, length)`: `length` is a `uint16_t`, so a caller's length is taken mod 2 ^ 16.
unfoldable pub crc16 : List ℕ → ℕ → ℕ
crc16 block len = crc16_loop 0xffff (take (len % 2 ^ 16) block)

unfoldable pub crc32_round : ℕ → ℕ → ℕ
unfolding crc32_table
crc32_round crc b = bit_xor (crc / 256) (get_or crc32_table (bit_and (bit_xor crc b) 0xff) 0)

unfoldable pub crc32_loop : ℕ → List ℕ → ℕ
crc32_loop crc [] = crc
crc32_loop crc (b ∷ bs) = crc32_loop (crc32_round crc b) bs

-- `Crc32`: `length` is a `uint32_t`.
unfoldable pub crc32 : List ℕ → ℕ → ℕ
crc32 block len = bit_xor (crc32_loop 0xffffffff (take (len % 2 ^ 32) block)) 0xffffffff
