-- ===== src/Frames/RawData/Tests.antt =====
-- Runs of the theorems on DataFrameRawData at concrete blocks.
use threader.Prelude.{ℕ, ◌≡◌, refl, none, some, List, [], ◌∷◌, ◌++◌, arith}
use threader.Prelude.Bytes.{le_bytes}
use threader.Frames.RawData.{parsed, parse}
use threader.Frames.RawData.Parse.{encode, valid_frames, parse-encode}
use threader.Frames.RawData.Faults.{wrapping, parse-wrapping}

-- The frame "ab" with two bytes of data, and a block that makes no frame.
abbrev block : List ℕ
block = 0x61 ∷ 0x62 ∷ 0 ∷ 7 ∷ 8 ∷ []

abbrev blocks : List (List ℕ)
blocks = block ∷ (1 ∷ 2 ∷ []) ∷ block ∷ []

parse-encode_example : parse 4 (encode blocks ++ (5 ∷ [])) ≡ some (parsed (valid_frames blocks))
unfolding encode le_bytes
parse-encode_example = parse-encode blocks (5 ∷ []) 4 (omega arith) (omega arith) (omega arith)

parse-wrapping_example : parse 1000 (wrapping 1 (2 ∷ 3 ∷ [])) ≡ none
parse-wrapping_example = parse-wrapping 1 (2 ∷ 3 ∷ []) 1000 refl
