-- ===== src/Utils/Stream.antt =====
-- Utils/DataStream.h and Utils/DataStream.cpp: typed reading and writing of a byte array that the
-- stream refers to. The array is part of the state here, `none` for a null pointer. Bytes that
-- `QByteArray::resize` adds are uninitialised: the parameter `junk` gives them. A method returns
-- its result and the new stream. Sizes stay below 2 ^ 31, so no `int` sum overflows.
pub mod Core
pub mod Typed
pub mod Parse
pub mod RoundTrip
pub mod Safety
mod Tests
use threader.Prelude.{
  ℕ, ◌+◌, ◌-◌, ◌%◌, ◌^◌, Bool, true, false, ◌||◌, Option, none, some, List, [], ◌∷◌, ◌++◌, ltb, leb,
  ◌==◌, if◌then◌else◌, length, take, drop,
}
use threader.Prelude.Int.{ℤ, pos, negsuc, pos_part, ltb_ℤ, ◌+ℤ◌, ◌-ℤ◌}
use threader.Prelude.Bytes.{le_bytes, le_value}

pub record Stream : Type 0 where
  pub array : Option (List ℕ)
  pub position : ℤ

unfoldable pub new : Option (List ℕ) → Stream
new d = record { array = d; position = pos 0 }

unfoldable pub set_data : Stream → Option (List ℕ) → Stream
set_data s d = record { array = d; position = pos 0 }

-- `size()`: -1 without an array
abbrev pub size : Stream → ℤ
size s = elim s.array [ none ↦ negsuc 0 | some d ↦ pos (length d) ]

unfoldable pub set_position : Stream → ℤ → Stream
set_position s value = elim s.array [
  | none ↦ record s { position = negsuc 0 }
  | some d ↦ record s {
    position =
        if ltb_ℤ (pos (length d)) value
        then pos (length d)
        else if ltb_ℤ value (pos 0)
        then pos 0
        else value;
  }
]

unfoldable pub begin_of_data : Stream → Bool
begin_of_data s = elim s.array [
  | none ↦ true
  | some d ↦ if ltb_ℤ (pos 0) s.position then false else true
]

unfoldable pub end_of_data : Stream → Bool
end_of_data s = elim s.array [
  | none ↦ true
  | some d ↦ if ltb_ℤ s.position (pos (length d)) then false else true
]

-- The bytes from the cursor on.
abbrev pub tail : Stream → List ℕ
tail s = elim s.array [ none ↦ [] | some d ↦ drop (pos_part s.position) d ]

-- The first `n` bytes from the cursor on.
abbrev pub bytes_at : Stream → ℕ → List ℕ
bytes_at s n = take n (tail s)

-- The index of the first zero byte.
unfoldable pub find_zero : List ℕ → Option ℕ
find_zero [] = none
find_zero (x ∷ xs) =
    if x == 0 then some 0 else elim (find_zero xs) [ none ↦ none | some i ↦ some (i + 1) ]

-- `indexOf('\0')`: from the cursor on, -1 if there is none
unfoldable pub index_of_zero : Stream → ℤ
index_of_zero s = elim s.array [
  | none ↦ negsuc 0
  | some d ↦ elim (find_zero (drop (pos_part s.position) d)) [
    | none ↦ negsuc 0
    | some i ↦ pos (pos_part s.position + i)
  ]
]

-- `read(void *, int)`: the bytes, or `none` for `false`
unfoldable pub read : Stream → ℕ → Option (List ℕ) × Stream
read s n =
    let s1 = if ltb_ℤ (size s) (s.position +ℤ pos n) then set_position s (size s) else s in
    if end_of_data s1
    then (none, s1)
    else (some (bytes_at s1 n), set_position s1 (s1.position +ℤ pos n))

-- `QByteArray::resize`, for a size that is not smaller
abbrev pub grow : (ℕ → List ℕ) → List ℕ → ℕ → List ℕ
grow junk d n = d ++ junk (n - length d)

-- `memcpy` into the array at `p`
abbrev pub overwrite : List ℕ → ℕ → List ℕ → List ℕ
overwrite d p v = take p d ++ (v ++ drop (p + length v) d)

-- `write(const void *, int)`
unfoldable pub write : (ℕ → List ℕ) → Stream → List ℕ → Bool × Stream
write junk s v = elim s.array [
  | none ↦ (false, s)
  | some d ↦
      let stop = s.position +ℤ pos (length v) in
      let d1 = if ltb_ℤ (pos (length d)) stop then grow junk d (pos_part stop) else d in
      (true, set_position (record s { array = some (overwrite d1 (pos_part s.position) v) }) stop)
]

-- `read` of an unsigned integer of `n` bytes
unfoldable pub read_uint : Stream → ℕ → Option ℕ × Stream
read_uint s n = let (r, s') = read s n in (elim r [ none ↦ none | some b ↦ some (le_value b) ], s')

-- `write` of an unsigned integer of `n` bytes
unfoldable pub write_uint : (ℕ → List ℕ) → Stream → ℕ → ℕ → Bool × Stream
write_uint junk s n v = write junk s (le_bytes n v)

-- `append` of an unsigned integer of `n` bytes
unfoldable pub append_uint : (ℕ → List ℕ) → Stream → ℕ → ℕ → Bool × Stream
append_uint junk s n v = write_uint junk (set_position s (size s)) n v

-- `write<QByteArray>`: a 32-bit size, then the bytes. A null argument is `none`.
unfoldable pub write_array : (ℕ → List ℕ) → Stream → Option (List ℕ) → Bool × Stream
write_array junk s none = (false, s)
write_array junk s (some v) =
    let (done, s1) = write_uint junk s 4 (length v % 2 ^ 32) in
    if done then write junk s1 (take (length v % 2 ^ 32) v) else (false, s1)

-- What is left of `read<QByteArray>` once the size is known: at most the rest of the array.
unfoldable pub read_array_body : Stream → ℕ → Bool × List ℕ × Stream
read_array_body s n =
    let rest = size s -ℤ s.position in
    let m = if ltb_ℤ rest (pos n) then pos_part rest else n in
    if n == 0
    then (true, [], s)
    else if ltb_ℤ (pos 0) rest
    then (true, bytes_at s m, set_position s (s.position +ℤ pos m))
    else (false, [], s)

-- `read<QByteArray>`: the result, the value (`old` where it is not written) and the stream
unfoldable pub read_array : Stream → List ℕ → Bool × List ℕ × Stream
read_array s old =
    let (n, s1) = read_uint s 4 in
    elim n [ none ↦ (false, old, s1) | some k ↦ read_array_body s1 k ]

-- The bytes of a C string that starts a block.
unfoldable pub c_string : List ℕ → List ℕ
c_string [] = []
c_string (x ∷ xs) = let rest = c_string xs in if x == 0 then [] else x ∷ rest

-- `writeString` after the codec: the bytes of the text
unfoldable pub write_text : (ℕ → List ℕ) → Stream → List ℕ → Bool × Stream
write_text junk s raw = write junk s raw

-- `write<QString>` after the codec: the bytes of the text, then a zero byte
unfoldable pub write_string : (ℕ → List ℕ) → Stream → List ℕ → Bool × Stream
write_string junk s raw =
    let (done, s1) = write junk s raw in if done then write junk s1 (0 ∷ []) else (false, s1)

-- `int size` of `read<QString>`: up to the zero byte and with it, or all that is left
unfoldable pub string_size : Stream → ℤ
string_size s =
    let found = index_of_zero s in
    let stop = if ltb_ℤ found (pos 0) then size s -ℤ pos 1 else found in
    (stop -ℤ s.position) +ℤ pos 1

-- `read<QString>` once `size` is known, and before the codec: the bytes of the text
unfoldable pub read_string_body : Stream → ℤ → List ℕ × Stream
read_string_body s n =
    if ltb_ℤ (pos 0) (n +ℤ pos 1)
    then (c_string (bytes_at s (pos_part n)), set_position s (s.position +ℤ n))
    else let s1 = set_position s (s.position +ℤ pos 1) in ([], set_position s1 (s1.position +ℤ n))

unfoldable pub read_string : Stream → List ℕ × Stream
read_string s = read_string_body s (string_size s)

-- The sizes that the `valueSize` overloads report: of a byte array, and of a GUID.
unfoldable pub value_size_array : Option (List ℕ) → ℤ
value_size_array none = negsuc 0
value_size_array (some v) = pos (length v + 4)

unfoldable pub value_size_uuid : ℕ
value_size_uuid = 16

-- `write<QUuid>`: the 16 bytes of `toRfc4122`, as a byte array
unfoldable pub write_uuid : (ℕ → List ℕ) → Stream → List ℕ → Bool × Stream
write_uuid junk s rfc4122 = write_array junk s (some rfc4122)

-- `read<QUuid>`: the bytes that go to `fromRfc4122`
unfoldable pub read_uuid : Stream → Option (List ℕ) × Stream
read_uuid s = let (done, v, s') = read_array s [] in (if done then some v else none, s')
