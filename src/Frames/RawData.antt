-- ===== src/Frames/RawData.antt =====
-- Frames/DataFrameRawData.h and Frames/DataFrameRawData.cpp: a frame as it travels, a block of bytes
-- that starts with the name of the frame and a zero byte, and the list of frames in a byte array,
-- each behind its length in four bytes.
-- `FrameSizeType` is `uint32_t`, so the position of `parse` is taken mod 2 ^ 32 where the source
-- adds to it; `char` is signed. A read behind the end of the array is the outcome `overread`.
pub mod Create
pub mod Parse
pub mod Faults
mod Tests
use threader.Prelude.{
  ℕ, zero, suc, ◌+◌, ◌-◌, ◌%◌, ◌^◌, Bool, true, false, ◌||◌, Option, none, some, List, [], ◌∷◌,
  ◌++◌, ltb, leb, ◌==◌, if◌then◌else◌, length, take, drop,
}
use threader.Prelude.Int.{ℤ, pos, negsuc}
use threader.Prelude.Bytes.{le_bytes, le_value}
use threader.Utils.Stream.{find_zero, c_string}

-- What a frame needs of its `DataFrameDefinition` here.
pub record Definition : Type 0 where
  pub name : List ℕ
  pub needs_ticket : Bool
  pub is_array : Bool
  pub capacity : ℕ
  pub priority : ℕ

-- `_data` is a pointer into `_buffer`, kept here as an offset.
pub record Frame : Type 0 where
  pub is_valid : Bool
  pub buffer : List ℕ
  pub size : ℕ
  pub data_offset : ℕ
  pub data_length : ℕ
  pub name_string : List ℕ
  pub packet_id : ℤ
  pub definition : Option Definition

-- `32 >= data[0]` for a signed `char`
abbrev pub is_control : ℕ → Bool
is_control b = leb b 32 || leb 128 b

abbrev pub invalid_frame : Frame
invalid_frame = record {
  is_valid = false;
  buffer = [];
  size = 0;
  data_offset = 0;
  data_length = 0;
  name_string = [];
  packet_id = negsuc 0;
  definition = none;
}

-- The frame of a block whose name ends at `zero_position` (0 if there is no zero byte).
unfoldable pub frame_of : List ℕ → ℕ → Frame
frame_of block zero_position =
    let bare : Frame = record {
      is_valid = true;
      buffer = block;
      size = length block;
      data_offset = 1;
      data_length = 0;
      name_string = [];
      packet_id = negsuc 0;
      definition = none;
    } in
    if ltb 0 zero_position
    then if ltb (zero_position + 1) (length block)
      then record bare {
        data_offset = zero_position + 1;
        data_length = length block - zero_position - 1;
        name_string = c_string block;
      }
      else bare
    else bare

-- The constructor, from `size` bytes at the start of `memory`; `none` if `memory` is shorter.
unfoldable pub create : List ℕ → ℕ → Option Frame
create memory zero = some invalid_frame
create [] (suc n) = none
create (b ∷ memory) (suc n) =
    if is_control b
    then some invalid_frame
    else if ltb (length memory) n
    then none
    else some (
        frame_of (b ∷ take n memory)
          (elim (find_zero (b ∷ take n memory)) [ none ↦ 0 | some i ↦ i ]))

-- `data()` with `dataLength()`
abbrev pub data_bytes : Frame → List ℕ
data_bytes f = take f.data_length (drop f.data_offset f.buffer)

unfoldable pub clone : Frame → Option Frame
clone f = elim (create f.buffer f.size) [
  | none ↦ none
  | some g ↦ some (record g { definition = f.definition })
]

-- `streamSize` adds `sizeof(uint16_t)`, though the length is stored in four bytes.
unfoldable pub stream_size : Frame → ℕ
stream_size f = f.size + 2

unfoldable pub append_byte_array : Frame → List ℕ → Bool → List ℕ
append_byte_array f array clear =
    (if clear then [] else array) ++ (le_bytes 4 f.size ++ take f.size f.buffer)

unfoldable pub priority : Frame → ℕ
priority f = elim f.definition [ none ↦ 1 | some d ↦ d.priority ]

abbrev pub set_packet_id : Frame → ℤ → Frame
set_packet_id f i = record f { packet_id = i }

pub data Outcome : Type 0 where
  parsed : List Frame → Outcome
  overread : Outcome

abbrev pub keep : List Frame → Frame → List Frame
keep result f = if f.is_valid then result ++ (f ∷ []) else result

-- The body of the loop of `parse` behind the length `n` of the frame; `again` is the next round.
unfoldable pub parse_block :
    (ℕ → List Frame → Option Outcome) → List ℕ → ℕ → ℕ → List Frame → Option Outcome
parse_block again source start n result =
    let made : Option Outcome = elim (create (drop start source) n) [
      | none ↦ some overread
      | some f ↦ again ((start + n) % 2 ^ 32) (keep result f)
    ] in
    if leb ((start + n) % 2 ^ 32) (length source) then made else some (parsed result)

-- A round of the loop of `parse`, with its test.
unfoldable pub parse_round :
    (ℕ → List Frame → Option Outcome) → List ℕ → ℕ → List Frame → Option Outcome
parse_round again source position result =
    if leb (position + 4) (length source)
    then parse_block again source ((position + 4) % 2 ^ 32)
        (le_value (take 4 (drop position source))) result
    else some (parsed result)

-- The loop of `parse` on fuel: `none` if the fuel runs out.
unfoldable pub parse_loop : ℕ → List ℕ → ℕ → List Frame → Option Outcome
parse_loop zero source position result = none
parse_loop (suc fuel) source position result =
    parse_round (parse_loop fuel source) source position result

unfoldable pub parse : ℕ → List ℕ → Option Outcome
parse fuel source = if leb (length source) 0 then some (parsed []) else parse_loop fuel source 0 []
