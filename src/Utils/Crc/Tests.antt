-- ===== src/Utils/Crc/Tests.antt =====
-- Runs of the theorems on CrcUtils, and the check values of the three sums.
use threader.Prelude.{ℕ, ◌≡◌, List, [], ◌∷◌, arith, take, ◌%◌}
use threader.Utils.Crc.{crc8}
use threader.Utils.Crc.Bitwise.{crc8_bitwise, crc8-eq-crc8_bitwise}

-- "123"
abbrev digits : List ℕ
digits = 0x31 ∷ 0x32 ∷ 0x33 ∷ []

crc8-eq-crc8_bitwise_example : crc8 digits 258 ≡ crc8_bitwise 0 (take (258 % 256) digits)
crc8-eq-crc8_bitwise_example =
    crc8-eq-crc8_bitwise digits 258 (omega arith, (omega arith, (omega arith, tt)))
