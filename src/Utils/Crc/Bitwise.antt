-- ===== src/Utils/Crc/Bitwise.antt =====
-- The checksums of Utils/CrcUtils.cpp against division of the bits by the generator polynomial.
use threader.Prelude.{
  ℕ, zero, suc, ◌*◌, ◌/◌, ◌%◌, ◌^◌, ◌<◌, ◌≡◌, refl, bit_xor, true, List, [], ◌∷◌, ltb, ◌==◌,
  if◌then◌else◌, get_or, take, arith, ap, ◌∙◌,
}
use threader.Prelude.Finite.{agrees, agrees-eq}
use threader.Prelude.Bits.{bit_xor-lt}
use threader.Prelude.Bytes.{IsBytes, take-IsBytes}
use threader.Utils.Crc.{crc8, crc8_loop}
use threader.Utils.Crc.Tables.{crc8_table, crc16_table, crc32_table}

-- `n` steps of the division, low bit first: shift right, and subtract the polynomial on a carry.
unfoldable pub divide_low : ℕ → ℕ → ℕ → ℕ
divide_low poly zero r = r
divide_low poly (suc n) r = divide_low poly n (if r % 2 == 1 then bit_xor (r / 2) poly else r / 2)

-- `n` steps of the division, high bit first, of a remainder of 16 bits.
unfoldable pub divide_high : ℕ → ℕ → ℕ → ℕ
divide_high poly zero r = r
divide_high poly (suc n) r =
    divide_high poly n (if ltb r 0x8000 then r * 2 else bit_xor (r * 2 % 2 ^ 16) poly)

crc8_table-agrees : agrees (λ i. get_or crc8_table i 0) (divide_low 0x8c 8) 256 ≡ true
unfolding agrees divide_low crc8_table
crc8_table-agrees = refl

crc16_table-agrees :
    agrees (λ i. get_or crc16_table i 0) (λ i. divide_high 0x1021 8 (i * 256)) 256 ≡ true
unfolding agrees divide_high crc16_table
crc16_table-agrees = refl

crc32_table-agrees : agrees (λ i. get_or crc32_table i 0) (divide_low 0xedb88320 8) 256 ≡ true
unfolding agrees divide_low crc32_table
crc32_table-agrees = refl

-- Each entry of the three tables is what eight steps of the division make of its index: by 0x31
-- reflected, by 0x1021, and by the reflected polynomial of CRC-32.
pub tables_lem :
    (i : ℕ)
    → i < 256
    → (get_or crc8_table i 0 ≡ divide_low 0x8c 8 i)
      × (get_or crc16_table i 0 ≡ divide_high 0x1021 8 (i * 256))
      × (get_or crc32_table i 0 ≡ divide_low 0xedb88320 8 i)
tables_lem i h = (
  agrees-eq _ _ 256 i crc8_table-agrees h,
  agrees-eq _ _ 256 i crc16_table-agrees h,
  agrees-eq _ _ 256 i crc32_table-agrees h,
)

-- `Crc8` bit by bit.
unfoldable pub crc8_bitwise : ℕ → List ℕ → ℕ
crc8_bitwise crc [] = crc
crc8_bitwise crc (b ∷ bs) = crc8_bitwise (divide_low 0x8c 8 (bit_xor crc b)) bs

bytes-agrees : agrees (divide_low 0x8c 8) (λ i. divide_low 0x8c 8 i % 256) 256 ≡ true
unfolding agrees divide_low
bytes-agrees = refl

crc8_loop_lem :
    (crc : ℕ) (bs : List ℕ) → crc < 256 → IsBytes bs → crc8_loop crc bs ≡ crc8_bitwise crc bs
unfolding crc8_loop crc8_bitwise
crc8_loop_lem crc [] h k = refl
crc8_loop_lem crc (b ∷ bs) h k =
    let i = bit_xor crc b in
    let small : i < 256 = bit_xor-lt 8 crc b h k.0 in
    ap (λ t. crc8_loop t bs) (tables_lem i small).0
    ∙ crc8_loop_lem (divide_low 0x8c 8 i) bs
        (omega (
          arith,
          agrees-eq (divide_low 0x8c 8) (λ j. divide_low 0x8c 8 j % 256) 256 i bytes-agrees small,
        ))
        k.1

-- On a block of bytes `Crc8` is the division of the bits of its first `len mod 256` bytes, eight
-- steps for each byte.
pub crc8-eq-crc8_bitwise :
    (block : List ℕ) (len : ℕ)
    → IsBytes block
    → crc8 block len ≡ crc8_bitwise 0 (take (len % 256) block)
unfolding crc8
crc8-eq-crc8_bitwise block len h =
    crc8_loop_lem 0 (take (len % 256) block) (omega arith) (take-IsBytes (len % 256) block h)
