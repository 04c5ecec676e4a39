-- ===== src/Frames/Definitions.antt =====
-- Frames/DataFramesCommon.cpp: definitions of data frames that are read from XML. A string is a number
-- that stands for it, and Qt's operations on strings are an argument; an XML reader is the list of the
-- tokens it gives, with the attributes that the code asks for.
pub mod Reading
pub mod Index
mod Tests
use threader.Prelude.{
  ℕ, zero, suc, ◌+◌, ◌%◌, Bool, true, false, Option, none, some, List, [], ◌∷◌, ◌++◌, ◌==◌, ltb,
  if◌then◌else◌, length,
}
use threader.Prelude.Int.{ℤ, pos, negsuc}

-- `is_true` is the comparison with "true" that ignores case; `empty` is a null string and `undefined`
-- is "Undefined".
pub record Strings : Type 0 where
  pub upper : ℕ → ℕ
  pub lower : ℕ → ℕ
  pub to_uint : ℕ → ℕ
  pub is_true : ℕ → Bool
  pub empty : ℕ
  pub undefined : ℕ

-- `DataAtomDefinition`
pub record AtomDefinition : Type 0 where
  pub name : ℕ
  pub atom_type : ℕ
  pub is_scalar : Bool
  pub default_value : ℕ

-- `DataFrameDefinition`; `hasAddressDirection` stays false.
pub record FrameDefinition : Type 0 where
  pub name : ℕ
  pub is_array : Bool
  pub capacity : ℕ
  pub needs_ticket : Bool
  pub priority : ℕ
  pub atoms : List AtomDefinition

-- The attributes of an element, where it has them.
pub record FrameAttributes : Type 0 where
  pub name : Option ℕ
  pub needs_ticket : Option ℕ
  pub is_array : Option ℕ
  pub priority : Option ℕ
  pub capacity : Option ℕ

pub record AtomAttributes : Type 0 where
  pub name : Option ℕ
  pub scalar : Option ℕ
  pub atom_type : Option ℕ
  pub default_value : Option ℕ

-- A start of an element by its name, and any other token.
pub data Token : Type 0 where
  data_frames : Option ℕ → Token
  data_frame : FrameAttributes → Token
  data_atom : AtomAttributes → Token
  other : Token

-- `framesHash`: an association list with one entry for each key. `current` is the key of the frame that
-- was read last, which no later entry has replaced.
pub record Definitions : Type 0 where
  pub version : ℕ
  pub frames : List (ℕ × FrameDefinition)
  pub current : Option ℕ

abbrev pub value_or : Option ℕ → ℕ → ℕ
value_or none d = d
value_or (some v) d = v

abbrev flag : Strings → Option ℕ → Bool
flag q none = false
flag q (some v) = q.is_true v

abbrev pub at_least_one : ℕ → ℕ
at_least_one n = if ltb n 1 then 1 else n

abbrev pub uint_or_one : Strings → Option ℕ → ℕ
uint_or_one q none = 1
uint_or_one q (some v) = at_least_one (q.to_uint v)

-- The constructor of DataFrameDefinition, whose priority is an unsigned char.
unfoldable pub new_frame : ℕ → Bool → ℕ → Bool → ℕ → List AtomDefinition → FrameDefinition
new_frame name is_array capacity needs_ticket priority atoms = record {
  name = name;
  is_array = is_array;
  capacity = capacity;
  needs_ticket = needs_ticket;
  priority = priority % 256;
  atoms = atoms;
}

-- `parseDataFrameAttributes`
unfoldable pub parse_data_frame_attributes : Strings → FrameAttributes → FrameDefinition
parse_data_frame_attributes q a =
    new_frame (value_or a.name q.empty) (flag q a.is_array) (uint_or_one q a.capacity)
      (flag q a.needs_ticket) (uint_or_one q a.priority) []

-- `parseDataAtomAttributes`, with the constructor of DataAtomDefinition
unfoldable pub parse_data_atom_attributes : Strings → AtomAttributes → AtomDefinition
parse_data_atom_attributes q a = record {
  name = value_or a.name q.empty;
  atom_type = q.lower (value_or a.atom_type q.undefined);
  is_scalar = flag q a.scalar;
  default_value = value_or a.default_value q.empty;
}

-- `QHash::insert`, `value` and a change of the value in place.
unfoldable pub insert :
    ℕ → FrameDefinition → List (ℕ × FrameDefinition) → List (ℕ × FrameDefinition)
insert key f [] = (key, f) ∷ []
insert key f ((k, g) ∷ rest) =
    let more = insert key f rest in if k == key then (key, f) ∷ rest else (k, g) ∷ more

unfoldable pub lookup : ℕ → List (ℕ × FrameDefinition) → Option FrameDefinition
lookup key [] = none
lookup key ((k, g) ∷ rest) = let more = lookup key rest in if k == key then some g else more

unfoldable pub append_atom_at :
    ℕ → AtomDefinition → List (ℕ × FrameDefinition) → List (ℕ × FrameDefinition)
append_atom_at key a [] = []
append_atom_at key a ((k, g) ∷ rest) =
    let more = append_atom_at key a rest in
    if k == key then (k, record g { atoms = g.atoms ++ (a ∷ []) }) ∷ rest else (k, g) ∷ more

-- `appendDefinition`
unfoldable pub append_definition : Strings → ℕ → FrameDefinition → Definitions → Definitions
append_definition q name f d = record d {
  frames = insert (q.upper name) f d.frames;
  current = some (q.upper name);
}

-- One turn of the loop; an atom before every frame is a call through a null pointer.
unfoldable pub read_token : Strings → Token → Definitions → Option Definitions
read_token q (data_frames v) d = some (record d { version = value_or v d.version })
read_token q (data_frame a) d =
    let f = parse_data_frame_attributes q a in some (append_definition q (q.upper f.name) f d)
read_token q (data_atom a) d = elim d.current [
  | none ↦ none
  | some key ↦
      some (record d { frames = append_atom_at key (parse_data_atom_attributes q a) d.frames })
]
read_token q other d = some d

unfoldable pub read_tokens : Strings → List Token → Definitions → Option Definitions
read_tokens q [] d = some d
read_tokens q (t ∷ ts) d = elim (read_token q t d) [ none ↦ none | some e ↦ read_tokens q ts e ]

-- `readFromReader`, whose frame is null at the start
unfoldable pub read_from_reader : Strings → List Token → Definitions → Option Definitions
read_from_reader q ts d = read_tokens q ts (record d { current = none })

-- `clear`
unfoldable pub clear : Definitions → Definitions
clear d = record d { frames = [] }

-- `definitionByKey`
unfoldable pub definition_by_key : Strings → ℕ → Definitions → Option FrameDefinition
definition_by_key q key d = lookup (q.upper key) d.frames

-- `indexOfAtomByName`, from the atom number `i` on
unfoldable pub index_from : Strings → ℕ → ℕ → List AtomDefinition → ℤ
index_from q name i [] = negsuc 0
index_from q name i (a ∷ more) =
    let rest = index_from q name (i + 1) more in
    if q.upper a.name == q.upper name then pos i else rest

unfoldable pub index_of_atom_by_name : Strings → ℕ → FrameDefinition → ℤ
index_of_atom_by_name q name f = index_from q name 0 f.atoms
