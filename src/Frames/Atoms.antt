-- ===== src/Frames/Atoms.antt =====
-- Frames/DataAtoms.h and Frames/DataAtoms.cpp: the atoms of a frame, vectors of values of one type
-- that go through a DataStream. A number, a floating-point number too, is the bytes that it has in
-- memory; a text is its bytes in the one-byte encoding; a GUID is the bytes of `toRfc4122`, as they go
-- to `fromRfc4122`. A date is the bytes of its milliseconds, and the arithmetic on `double` that turns
-- them into what is written and back is an argument that comes with the type.
pub mod Encoding
pub mod Reading
use threader.Prelude.{
  ℕ, zero, suc, ◌+◌, ◌-◌, Bool, true, false, Option, none, some, List, [], ◌∷◌, ◌++◌, ltb, leb,
  ◌==◌, if◌then◌else◌, length, take, replicate, set,
}
use threader.Utils.Stream.{
  Stream, read, write, read_array, write_array, read_string, write_string, write_uuid,
  value_size_uuid,
}

-- `write<QDateTime>` and `read<QDateTime>`: the bytes of `ms / 86400000. + 25569.`, and the milliseconds
-- of `qint64((d - 25569.) * 86400000.)`; `null_date` is a new QDateTime.
pub record DateCodec : Type 0 where
  pub to_double : List ℕ → List ℕ
  pub of_double : List ℕ → List ℕ
  pub null_date : List ℕ

-- The types of values: numbers by their width, and the classes with a way of their own.
pub data Kind : Type 0 where
  number : ℕ → Kind
  date : DateCodec → Kind
  text guid byte_array : Kind

pub record AtomDefinition : Type 0 where
  pub name : List ℕ
  pub kind : Kind
  pub is_scalar : Bool

-- `BaseDataAtom`
pub record Atom : Type 0 where
  pub definition : AtomDefinition
  pub values : List (List ℕ)
  pub current_index : ℕ

-- A value that the vector makes.
unfoldable pub default_value : Kind → List ℕ
default_value (number n) = replicate n 0
default_value (date c) = c.null_date
default_value text = []
default_value guid = replicate 16 0
default_value byte_array = []

-- The constructor.
unfoldable pub new : AtomDefinition → Atom
new d = record { definition = d; values = default_value d.kind ∷ []; current_index = 0 }

-- `QVector::resize`
unfoldable pub resize : Kind → ℕ → List (List ℕ) → List (List ℕ)
resize k n vs = take n vs ++ replicate (n - length vs) (default_value k)

unfoldable pub capacity : Atom → ℕ
capacity a = length a.values

-- `setCapacity`, which ByteArrayDataAtom leaves empty.
unfoldable pub resize_atom : Kind → Atom → ℕ → Atom
resize_atom k a n =
    let m = if n == 0 then 1 else n in
    record a {
      values = resize k m a.values;
      current_index = if leb m a.current_index then m - 1 else a.current_index;
    }

unfoldable pub set_capacity : Atom → ℕ → Atom
set_capacity a n = elim a.definition.kind [
  | number w ↦ resize_atom (number w) a n
  | date c ↦ resize_atom (date c) a n
  | text ↦ resize_atom text a n
  | guid ↦ resize_atom guid a n
  | byte_array ↦ a
]

-- `setCurrentIndex`
unfoldable pub set_current_index : Atom → ℕ → Atom
set_current_index a i = record a {
  current_index = if leb (capacity a) i then capacity a - 1 else i;
}

unfoldable pub clear : Atom → Atom
clear a = record a { values = replicate (capacity a) (default_value a.definition.kind) }

-- `setValue` of one value, at the current index
unfoldable pub set_value : Atom → List ℕ → Atom
set_value a v = record a { values = set a.values a.current_index v }

-- What `valueSize`, or `size` for texts, counts for a value.
unfoldable pub value_size : Kind → List ℕ → ℕ
value_size (number n) v = n
value_size (date c) v = 8
value_size text v = length v + 1
value_size guid v = value_size_uuid
value_size byte_array v = length v + 4

unfoldable pub values_size : Kind → List (List ℕ) → ℕ
values_size k [] = 0
values_size k (v ∷ vs) = value_size k v + values_size k vs

-- `size`
unfoldable pub atom_size : Atom → ℕ
atom_size a = values_size a.definition.kind a.values

-- `stream.read(value)` over the value `old`: whether it was read, the value and the stream
unfoldable pub read_value : Kind → Stream → List ℕ → Bool × List ℕ × Stream
read_value (number n) s old =
    let (r, s1) = read s n in elim r [ none ↦ (false, old, s1) | some b ↦ (true, b, s1) ]
read_value (date c) s old =
    let (r, s1) = read s 8 in
    elim r [ none ↦ (false, c.of_double (replicate 8 0), s1) | some b ↦ (true, c.of_double b, s1) ]
read_value text s old = let (v, s1) = read_string s in (true, v, s1)
read_value guid s old =
    let (done, v, s1) = read_array s (default_value guid) in (done, if done then v else old, s1)
read_value byte_array s old = read_array s old

unfoldable pub write_value : (ℕ → List ℕ) → Kind → Stream → List ℕ → Bool × Stream
write_value junk (number n) s v = write junk s v
write_value junk (date c) s v = write junk s (c.to_double v)
write_value junk text s v = write_string junk s v
write_value junk guid s v = write_uuid junk s v
write_value junk byte_array s v = write_array junk s (some v)

-- The loop of `read` over a vector that was cleared.
unfoldable pub read_values : Kind → ℕ → Stream → Bool × List (List ℕ) × Stream
read_values k zero s = (true, [], s)
read_values k (suc n) s =
    let (done, v, s1) = read_value k s (default_value k) in
    let (done2, vs, s2) = read_values k n s1 in
    if done then (done2, v ∷ vs, s2) else (false, v ∷ replicate n (default_value k), s1)

unfoldable pub write_values : (ℕ → List ℕ) → Kind → Stream → List (List ℕ) → Bool × Stream
write_values junk k s [] = (true, s)
write_values junk k s (v ∷ vs) =
    let (done, s1) = write_value junk k s v in
    let rest = write_values junk k s1 vs in if done then rest else (false, s1)

-- `read` and `write`
unfoldable pub read_atom : Atom → Stream → Bool × Atom × Stream
read_atom a s =
    let (done, vs, s1) = read_values a.definition.kind (capacity a) s in
    (done, record a { values = vs }, s1)

unfoldable pub write_atom : (ℕ → List ℕ) → Atom → Stream → Bool × Stream
write_atom junk a s = write_values junk a.definition.kind s a.values
