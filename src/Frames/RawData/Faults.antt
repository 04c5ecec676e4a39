-- ===== src/Frames/RawData/Faults.antt =====
-- DataFrameRawData::parse on a length that wraps the position (Frames/DataFrameRawData.cpp).
use threader.Prelude.{
  ℕ, zero, suc, ◌<◌, ◌≡◌, refl, true, false, none, some, List, [], ◌∷◌, length, arith,
}
use threader.Prelude.Bytes.{le_value}
use threader.Frames.RawData.{
  Frame, is_control, overread, parse_loop, parse_block, parse_round, parse,
}
use threader.Frames.RawData.Create.{create_control, create_short}

-- The length 2 ^ 32 - 4 in four bytes, and a block that starts with `b`.
abbrev pub wrapping : ℕ → List ℕ → List ℕ
wrapping b t = 0xfc ∷ 0xff ∷ 0xff ∷ 0xff ∷ b ∷ t

wrapping_loop :
    (b : ℕ) (t : List ℕ) (fuel : ℕ) (acc : List Frame)
    → is_control b ≡ true
    → parse_loop fuel (wrapping b t) 0 acc ≡ none
unfolding parse_loop parse_round parse_block le_value
wrapping_loop b t zero acc h = refl
wrapping_loop b t (suc fuel) acc h =
    rw (create_control b t 4294967291 h) (ground (arith, wrapping_loop b t fuel acc h))

-- `parse` never ends on a byte array that starts with the length 2 ^ 32 - 4 and a byte that is no
-- printable ASCII character: no number of rounds is enough.
pub parse-wrapping :
    (b : ℕ) (t : List ℕ) (fuel : ℕ) → is_control b ≡ true → parse fuel (wrapping b t) ≡ none
unfolding parse
parse-wrapping b t fuel h = ground (arith, wrapping_loop b t fuel [] h)

-- On a byte array that starts with the length 2 ^ 32 - 4 and a printable ASCII character, and has
-- fewer bytes behind it than this block would, `parse` reads past the end of the array in its first
-- round.
pub parse-wrapping_overread :
    (b : ℕ) (t : List ℕ) (fuel : ℕ)
    → is_control b ≡ false
    → length t < 4294967291
    → parse (suc fuel) (wrapping b t) ≡ some overread
unfolding parse parse_loop parse_round parse_block le_value
parse-wrapping_overread b t fuel h k = rw (create_short b t 4294967291 h k) (ground arith)
