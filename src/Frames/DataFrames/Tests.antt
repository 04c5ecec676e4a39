-- ===== src/Frames/DataFrames/Tests.antt =====
-- Runs of the theorems on frames of atoms at concrete frames.
use threader.Prelude.{
  ℕ, ◌^◌, ◌-◌, ◌≡◌, refl, arith, true, false, none, some, List, [], ◌∷◌, ◌++◌, length, replicate,
  length-replicate,
}
use threader.Prelude.Int.{pos}
use threader.Prelude.Bytes.{le_bytes}
use threader.Utils.Stream.{set_position}
use threader.Utils.Stream.Core.{at}
use threader.Utils.Stream.Typed.{IsFiller}
use threader.Frames.Atoms.{number, DateCodec, date, text, guid, atom_size, values_size, value_size}
use threader.Frames.Atoms.Encoding.{at_end, read_back, encode_values, encode_value}
use threader.Frames.DataFrames.{
  FrameDefinition, Definitions, frame_size, atoms_size, append_definition, definition_by_key,
  find_definition, same_text, read_frame, read_frames, write_frame,
}
use threader.Frames.DataFrames.Writing.{encode_atoms, all_back, atoms_with, uncounted}
use threader.Frames.DataFrames.RoundTrip.{
  Content, frame_of, frame_back, bytes_of, named_bytes, IsSound, read_frame-write_frame,
}
use threader.Frames.DataFrames.Series.{
  AreSound, bytes_of_all, write_frames, read_frames-write_frames,
}
use threader.Frames.DataFrames.Endless.{read_frames-stays}

abbrev zeros : ℕ → List ℕ
zeros n = replicate n 0

zeros-IsFiller : IsFiller zeros
zeros-IsFiller n = length-replicate n 0

-- Names in this test are in upper case.
abbrev to_upper : List ℕ → List ℕ
to_upper name = name

-- The frame "A" is an array of numbers of two bytes and of texts.
abbrev rows : FrameDefinition
rows = record {
  name = 0x41 ∷ [];
  is_array = true;
  capacity = 0;
  needs_ticket = false;
  priority = 1;
  atoms =
      record { name = 1 ∷ []; kind = number 2; is_scalar = false }
      ∷ record { name = 2 ∷ []; kind = text; is_scalar = true }
      ∷ [];
}

-- A codec of dates that keeps no fraction of 256 milliseconds.
abbrev coarse : List ℕ → List ℕ
coarse [] = []
coarse (x ∷ xs) = 0 ∷ xs

abbrev dates : DateCodec
dates = record { to_double = coarse; of_double = λ d. d; null_date = replicate 8 0 }

-- The frame "B" has one GUID and one date.
abbrev key : FrameDefinition
key = record {
  name = 0x42 ∷ [];
  is_array = false;
  capacity = 0;
  needs_ticket = false;
  priority = 1;
  atoms =
      record { name = 1 ∷ []; kind = guid; is_scalar = false }
      ∷ record { name = 2 ∷ []; kind = date dates; is_scalar = true }
      ∷ [];
}

abbrev definitions : Definitions
definitions =
    append_definition to_upper (append_definition to_upper [] (0x41 ∷ []) rows) (0x42 ∷ []) key

-- Two rows, and a text.
abbrev filled : Content
filled = record {
  definition = rows;
  capacity = 2;
  values = ((1 ∷ 2 ∷ []) ∷ (3 ∷ 4 ∷ []) ∷ []) ∷ ((0x61 ∷ []) ∷ []) ∷ [];
}

abbrev keyed : Content
keyed = record {
  definition = key;
  capacity = 1;
  values = (replicate 16 7 ∷ []) ∷ (replicate 8 3 ∷ []) ∷ [];
}

filled-IsSound : IsSound to_upper definitions filled
unfolding frame_size atoms_size atoms_with atom_size values_size value_size encode_atoms
    encode_values encode_value definition_by_key append_definition find_definition same_text
filled-IsSound = (
  (omega arith, tt),
  (((omega arith, refl), ((omega arith, refl), tt)), refl, (((omega arith, tt), tt), refl, tt)),
  (omega arith, omega arith, omega arith),
  omega arith,
  refl,
)

keyed-IsSound : IsSound to_upper definitions keyed
unfolding frame_size atoms_size atoms_with atom_size values_size value_size
    threader.Utils.Stream.value_size_uuid definition_by_key append_definition find_definition
    same_text
keyed-IsSound = (
  (omega arith, tt),
  ((refl, tt), refl, ((refl, tt), refl, tt)),
  (omega arith, omega arith, omega arith),
  omega arith,
  refl,
)

-- The cursor stands four bytes in front of the end.
read_frame-write_frame_example :
    read_frame to_upper
      (some definitions)
      false
      (set_position (write_frame zeros (frame_of keyed) (at_end (9 ∷ []))).1 (pos 1))
    ≡ (some (frame_back keyed), at (9 ∷ bytes_of keyed) (length (9 ∷ bytes_of keyed) - 4))
unfolding uncounted
read_frame-write_frame_example =
    read_frame-write_frame to_upper definitions zeros keyed (9 ∷ []) zeros-IsFiller keyed-IsSound

filled-AreSound : AreSound to_upper definitions (filled ∷ filled ∷ [])
unfolding uncounted
filled-AreSound = (filled-IsSound, refl, (filled-IsSound, refl, tt))

read_frames-write_frames_example :
    read_frames to_upper
      (some definitions)
      3
      (set_position (write_frames zeros (filled ∷ filled ∷ []) (at_end (9 ∷ []))) (pos 1))
    ≡ some (
      frame_back filled ∷ frame_back filled ∷ [],
      at_end (9 ∷ bytes_of_all (filled ∷ filled ∷ [])),
    )
read_frames-write_frames_example =
    read_frames-write_frames to_upper definitions zeros 3 (filled ∷ filled ∷ []) (9 ∷ [])
      zeros-IsFiller filled-AreSound (omega arith)

-- The date comes back as another one.
frame_back-keyed : frame_back keyed ≡ record (frame_of keyed) {
  atoms = atoms_with key.atoms ((replicate 16 7 ∷ []) ∷ ((0 ∷ replicate 7 3) ∷ []) ∷ []);
}
unfolding all_back read_back
frame_back-keyed = refl

read_frames-stays_example :
    read_frames to_upper
      (some definitions)
      1000
      (at ((le_bytes 4 (2 ^ 32 - 4) ++ named_bytes filled) ++ []) 0)
    ≡ none
read_frames-stays_example =
    read_frames-stays to_upper definitions 1000 filled
      ((le_bytes 4 (2 ^ 32 - 4) ++ named_bytes filled) ++ []) 0 [] filled-IsSound (omega arith) refl
