-- ===== src/Frames/Definitions/Tests.antt =====
-- A run of the theorems on a document with two frames of one name.
use threader.Prelude.{
  ℕ, ◌-◌, ◌≡◌, refl, List, ◌<◌, ◌%◌, none, some, [], ◌∷◌, if◌then◌else◌, ltb, arith, ◌==◌,
}
use threader.Frames.Definitions.{
  Strings, Token, data_frames, data_frame, data_atom, other, FrameAttributes, AtomAttributes,
  Definitions, read_from_reader, definition_by_key, parse_data_frame_attributes,
}
use threader.Frames.Definitions.Reading.{elements}
use threader.Frames.Definitions.Index.{
  last_named, definition_by_key-read_from_reader, parse_data_frame_attributes-bounds,
}

-- A string of one character, and `upper` makes 97 to 122 of it 65 to 90.
abbrev upper : ℕ → ℕ
upper n = if ltb 96 n then (if ltb n 123 then n - 32 else n) else n

upper_twice : (s : ℕ) → upper (upper s) ≡ upper s
upper_twice s = ground arith

abbrev strings : Strings
strings = record {
  upper = upper;
  lower = λ n. n;
  to_uint = λ n. n;
  is_true = λ n. n == 116;
  empty = 0;
  undefined = 1;
}

abbrev frame : ℕ → FrameAttributes
frame n = record {
  name = some n;
  needs_ticket = some 116;
  is_array = none;
  priority = some 256;
  capacity = some 0;
}

abbrev atom : ℕ → AtomAttributes
atom n = record { name = some n; scalar = none; atom_type = none; default_value = none }

-- The start of the document, the root element, white space, two frames of one name with their atoms and
-- the ends of the elements and of the document.
abbrev tokens : List Token
tokens =
    other
    ∷ data_frames (some 2)
    ∷ other
    ∷ data_frame (frame 97)
    ∷ other
    ∷ data_atom (atom 98)
    ∷ other
    ∷ other
    ∷ data_frame (frame 65)
    ∷ data_atom (atom 99)
    ∷ other
    ∷ data_atom (atom 100)
    ∷ other
    ∷ other
    ∷ other
    ∷ []

abbrev empty_definitions : Definitions
empty_definitions = record { version = 0; frames = []; current = none }

definition_by_key-read_from_reader_example :
    (e : Definitions) × (read_from_reader strings tokens empty_definitions ≡ some e)
    × ((name : ℕ)
        → definition_by_key strings name e
          ≡ last_named strings name
              (elements tokens)
              (definition_by_key strings name empty_definitions))
definition_by_key-read_from_reader_example =
    definition_by_key-read_from_reader strings tokens empty_definitions upper_twice refl

parse_data_frame_attributes-bounds_example :
    let f = parse_data_frame_attributes strings (frame 97) in
    (0 < f.capacity)
    × (f.priority < 256)
    × (f.priority ≡ 0 → (v : ℕ) × (some 256 ≡ some v) × (v % 256 ≡ 0) × (0 < v))
parse_data_frame_attributes-bounds_example = parse_data_frame_attributes-bounds strings (frame 97)
