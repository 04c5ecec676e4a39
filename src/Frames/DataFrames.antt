-- ===== src/Frames/DataFrames.antt =====
-- Frames/DataFrames.cpp, Frames/DataFramesCommon.cpp and Frames/DataFramesFactory.cpp: frames of
-- atoms, their definitions, and the factory that builds frames and reads them from a stream. A name
-- is its bytes; how `QString::toUpper` changes a name is an argument. The atoms of a definition have
-- types that the factory knows. The loop of `readFrames` runs on fuel.
pub mod Writing
pub mod Reading
pub mod Bodies
pub mod RoundTrip
pub mod Series
pub mod Endless
mod Tests
use threader.Prelude.{
  ℕ, zero, suc, ◌+◌, ◌-◌, ◌%◌, ◌^◌, Bool, true, false, ◌&&◌, Option, none, some, List, [], ◌∷◌,
  ◌++◌, map, ltb, leb, ◌==◌, if◌then◌else◌, length, take, drop,
}
use threader.Prelude.Int.{ℤ, pos, negsuc, ltb_ℤ, ◌+ℤ◌, ◌-ℤ◌}
use threader.Prelude.Bytes.{le_bytes, le_value}
use threader.Utils.Stream
use threader.Utils.Stream.{
  Stream, set_position, end_of_data, size, read_uint, write_uint, read_string, write_string,
}
use threader.Frames.Atoms
use threader.Frames.Atoms.{Atom, AtomDefinition, atom_size, read_atom, write_atom}
use threader.Frames.FrameQueue.{to_int}

-- `DataFrameDefinition`
pub record FrameDefinition : Type 0 where
  pub name : List ℕ
  pub is_array : Bool
  pub capacity : ℕ
  pub needs_ticket : Bool
  pub priority : ℕ
  pub atoms : List AtomDefinition

-- `DataFrame`
pub record DataFrame : Type 0 where
  pub definition : FrameDefinition
  pub atoms : List Atom
  pub capacity : ℕ
  pub current_index : ℕ
  pub packet_id : ℕ

-- `DataFramesFactory::buildFrame` of a definition
unfoldable pub build_frame : FrameDefinition → DataFrame
build_frame d = record {
  definition = d;
  atoms = map Atoms.new d.atoms;
  capacity = 1;
  current_index = 0;
  packet_id = 0;
}

-- The loop of `setCapacity`.
unfoldable pub set_atoms_capacity : List Atom → ℕ → List Atom
set_atoms_capacity [] n = []
set_atoms_capacity (a ∷ rest) n =
    Atoms.set_capacity a (if a.definition.is_scalar then 1 else n) ∷ set_atoms_capacity rest n

-- `DataFrame::setCapacity`
unfoldable pub set_capacity : DataFrame → ℕ → DataFrame
set_capacity f n =
    let m = if n == 0 then 1 else n in
    record f { capacity = m; atoms = set_atoms_capacity f.atoms m }

-- `DataFrame::setCurrentIndex`
unfoldable pub set_current_index : DataFrame → ℕ → DataFrame
set_current_index f i = record f {
  current_index = i;
  atoms = map (λ a. Atoms.set_current_index a i) f.atoms;
}

unfoldable pub atoms_size : List Atom → ℕ
atoms_size [] = 0
atoms_size (a ∷ rest) = atom_size a + atoms_size rest

-- `DataFrame::size`
unfoldable pub frame_size : DataFrame → ℕ
frame_size f =
    length f.definition.name + 1 + ((if f.definition.is_array then 4 else 0) + atoms_size f.atoms)

-- The loops of `read` and `write` over the atoms.
unfoldable pub read_atoms : List Atom → Stream → Bool × List Atom × Stream
read_atoms [] s = (true, [], s)
read_atoms (a ∷ rest) s =
    let (done, a1, s1) = read_atom a s in
    let (done2, rest1, s2) = read_atoms rest s1 in
    if done then (done2, a1 ∷ rest1, s2) else (false, a1 ∷ rest, s1)

unfoldable pub write_atoms : (ℕ → List ℕ) → List Atom → Stream → Bool × Stream
write_atoms junk [] s = (true, s)
write_atoms junk (a ∷ rest) s =
    let (done, s1) = write_atom junk a s in
    let more = write_atoms junk rest s1 in if done then more else (false, s1)

-- The part of `DataFrame::read` behind the capacity.
unfoldable pub read_body : DataFrame → ℕ → Stream → Bool × DataFrame × Stream
read_body f n s =
    let f1 = set_capacity f n in
    let (done, atoms, s1) = read_atoms f1.atoms s in (done, record f1 { atoms = atoms }, s1)

-- `capacity > uint32_t(stream.size() - stream.position())`
abbrev pub is_too_much : ℕ → Stream → Bool
is_too_much n s = ltb_ℤ (size s -ℤ s.position) (pos n)

-- `DataFrame::read` of an array: a capacity in front.
unfoldable pub read_array_data : DataFrame → Stream → Bool × DataFrame × Stream
read_array_data f s =
    let (n, s1) = read_uint s 4 in
    elim n [
      | none ↦ (false, f, s1)
      | some c ↦ if is_too_much c s1 then (false, f, s1) else read_body f c s1
    ]

-- `DataFrame::read`
unfoldable pub read_frame_data : DataFrame → Stream → Bool × DataFrame × Stream
read_frame_data f s = if f.definition.is_array then read_array_data f s else read_body f 1 s

-- The end of `DataFrame::write`, behind the name.
unfoldable pub write_body : (ℕ → List ℕ) → DataFrame → Stream → Bool × Stream
write_body junk f s =
    let (done, s1) : Bool × Stream =
      if f.definition.is_array then write_uint junk s 4 f.capacity else (true, s) in
    if done then write_atoms junk f.atoms s1 else (false, s1)

-- `DataFrame::write`
unfoldable pub write_frame : (ℕ → List ℕ) → DataFrame → Stream → Bool × Stream
write_frame junk f s =
    let (done, s1) = write_uint junk s 4 (frame_size f % 2 ^ 32) in
    let (done2, s2) = write_string junk s1 f.definition.name in
    if done then (if done2 then write_body junk f s2 else (false, s2)) else (false, s1)

-- `QHash` of the definitions by their names in upper case.
abbrev pub Definitions : Type 0
Definitions = List (List ℕ × FrameDefinition)

unfoldable pub same_text : List ℕ → List ℕ → Bool
same_text [] [] = true
same_text [] (y ∷ ys) = false
same_text (x ∷ xs) [] = false
same_text (x ∷ xs) (y ∷ ys) = x == y && same_text xs ys

unfoldable pub find_definition : Definitions → List ℕ → Option FrameDefinition
find_definition [] key = none
find_definition ((k, d) ∷ ds) key = if same_text k key then some d else find_definition ds key

-- `DataFramesDefinitions::appendDefinition`
unfoldable pub append_definition :
    (List ℕ → List ℕ) → Definitions → List ℕ → FrameDefinition → Definitions
append_definition to_upper ds name d = (to_upper name, d) ∷ ds

-- `definitionByKey`
unfoldable pub definition_by_key : (List ℕ → List ℕ) → Definitions → List ℕ → Option FrameDefinition
definition_by_key to_upper ds key = find_definition ds (to_upper key)

-- `buildFrame` of a name; `ds` is `none` without definitions
unfoldable pub build_frame_by_name :
    (List ℕ → List ℕ) → Option Definitions → List ℕ → Option DataFrame
build_frame_by_name to_upper none name = none
build_frame_by_name to_upper (some ds) name = elim (definition_by_key to_upper ds name) [
  | none ↦ none
  | some d ↦ some (build_frame d)
]

-- What `readFrame` makes of the name and what follows it.
unfoldable pub read_named_frame :
    (List ℕ → List ℕ) → Option Definitions → Stream → Option DataFrame × Stream
read_named_frame to_upper ds s =
    let (name, s1) = read_string s in
    elim (build_frame_by_name to_upper ds name) [
      | none ↦ (none, s1)
      | some f ↦ let (done, f1, s2) = read_frame_data f s1 in (if done then some f1 else none, s2)
    ]

-- `static_cast<int>(frameSize + sizeof(frameSize))`
abbrev pub frame_step : ℕ → ℤ
frame_step n = to_int ((n + 4) % 2 ^ 32)

-- `readFrame`. A size that could not be read is 0.
unfoldable pub read_frame :
    (List ℕ → List ℕ) → Option Definitions → Bool → Stream → Option DataFrame × Stream
read_frame to_upper ds true s = read_named_frame to_upper ds s
read_frame to_upper ds false s =
    let (n, s1) = read_uint s 4 in
    elim n [
      | none ↦ (none, set_position s1 (s.position +ℤ frame_step 0))
      | some k ↦
          let (f, s2) = read_named_frame to_upper ds s1 in
          (f, set_position s2 (s.position +ℤ frame_step k))
    ]

-- `readFrames` on fuel: `none` if the fuel runs out.
unfoldable pub read_frames :
    (List ℕ → List ℕ) → Option Definitions → ℕ → Stream → Option (List DataFrame × Stream)
read_frames to_upper ds zero s = none
read_frames to_upper ds (suc fuel) s =
    let (f, s1) = read_frame to_upper ds false s in
    elim (end_of_data s) [
      | true ↦ some ([], s)
      | false ↦ elim f [
        | none ↦ some ([], s1)
        | some frame ↦ elim (read_frames to_upper ds fuel s1) [
          | none ↦ none
          | some r ↦ some (frame ∷ r.0, r.1)
        ]
      ]
    ]
