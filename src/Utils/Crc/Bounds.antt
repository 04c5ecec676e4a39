-- ===== src/Utils/Crc/Bounds.antt =====
-- `Crc16` of Utils/CrcUtils.cpp stays a 16-bit number and reads no more than its length.
use threader.Prelude.{
  ℕ, ◌*◌, ◌/◌, ◌%◌, ◌^◌, ◌≤◌, ◌<◌, ◌≡◌, refl, ap, bit_xor, true, List, [], ◌∷◌, ◌++◌, get_or, take,
  length, arith, take-append,
}
use threader.Prelude.Bits.{bit_xor-lt}
use threader.Prelude.Bytes.{IsBytes, take-IsBytes}
use threader.Utils.Crc.{crc16, crc16_loop, crc16_round}
use threader.Utils.Crc.Tables.{crc16_table}
use threader.Prelude.Finite.{agrees, agrees-eq}

entries : agrees (λ i. get_or crc16_table i 0) (λ i. get_or crc16_table i 0 % 2 ^ 16) 256 ≡ true
unfolding agrees crc16_table
entries = refl

entry-lt : (i : ℕ) → i < 256 → get_or crc16_table i 0 < 2 ^ 16
entry-lt i h = omega (
  arith,
  agrees-eq (λ j. get_or crc16_table j 0) (λ j. get_or crc16_table j 0 % 2 ^ 16) 256 i entries h,
)

crc16_round-lt : (crc b : ℕ) → crc < 2 ^ 16 → b < 256 → crc16_round crc b < 2 ^ 16
unfolding crc16_round
crc16_round-lt crc b h k =
    bit_xor-lt 16 (crc * 256 % 2 ^ 16) (get_or crc16_table (bit_xor (crc / 256) b) 0) (omega arith)
      (entry-lt (bit_xor (crc / 256) b) (bit_xor-lt 8 (crc / 256) b (omega arith) k))

crc16_loop-lt : (crc : ℕ) (bs : List ℕ) → crc < 2 ^ 16 → IsBytes bs → crc16_loop crc bs < 2 ^ 16
unfolding crc16_loop
crc16_loop-lt crc [] h k = h
crc16_loop-lt crc (b ∷ bs) h k =
    crc16_loop-lt (crc16_round crc b) bs (crc16_round-lt crc b h k.0) k.1

pub crc16-lt : (block : List ℕ) (len : ℕ) → IsBytes block → crc16 block len < 2 ^ 16
unfolding crc16
crc16-lt block len h =
    crc16_loop-lt 0xffff (take (len % 2 ^ 16) block) (omega arith)
      (take-IsBytes (len % 2 ^ 16) block h)

-- What follows the block is not read.
pub crc16-append :
    (block rest : List ℕ) (len : ℕ)
    → len % 2 ^ 16 ≤ length block
    → crc16 (block ++ rest) len ≡ crc16 block len
unfolding crc16
crc16-append block rest len h = ap (crc16_loop 0xffff) (take-append (len % 2 ^ 16) block rest h)
