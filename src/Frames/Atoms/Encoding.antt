-- ===== src/Frames/Atoms/Encoding.antt =====
-- What atoms write (Frames/DataAtoms.h).
use threader.Prelude.{
  ℕ, ◌+◌, ◌-◌, ◌*◌, ◌^◌, ◌<◌, ◌≡◌, ap, ap₂, ◌∙◌, sym, true, some, List, [], ◌∷◌, ◌++◌, arith,
  length, length-append, append-nil, append_assoc,
}
use threader.Prelude.Bytes.{le_bytes, length-le_bytes}
use threader.Utils.Stream.{Stream, write, write_array, write_string, write_uuid, value_size_uuid}
use threader.Utils.Stream.Core.{at, write-at}
use threader.Utils.Stream.Typed.{IsFiller, overwrite_end, write_array_lem}
use threader.Utils.Stream.RoundTrip.{write_string_lem}
use threader.Utils.Stream.Parse.{NoZero}
use threader.Frames.Atoms.{
  Kind, number, date, text, guid, byte_array, value_size, values_size, write_value, write_values,
}

-- A stream with its cursor behind the last byte.
abbrev pub at_end : List ℕ → Stream
at_end d = at d (length d)

-- The bytes of a value.
unfoldable pub encode_value : Kind → List ℕ → List ℕ
encode_value (number n) v = v
encode_value (date c) v = c.to_double v
encode_value text v = v ++ (0 ∷ [])
encode_value guid v = le_bytes 4 (length v) ++ v
encode_value byte_array v = le_bytes 4 (length v) ++ v

unfoldable pub encode_values : Kind → List (List ℕ) → List ℕ
encode_values k [] = []
encode_values k (v ∷ vs) = encode_value k v ++ encode_values k vs

-- A `double` has eight bytes.
abbrev pub IsValue : Kind → List ℕ → Type 0
IsValue (number n) v = (0 < n) × (length v ≡ n)
IsValue (date c) v = length (c.to_double v) ≡ 8
IsValue text v = NoZero v
IsValue guid v = length v ≡ 16
IsValue byte_array v = length v < 2 ^ 32

-- What a value is when it has been written and read: a date has gone through `double`.
unfoldable pub read_back : Kind → List ℕ → List ℕ
read_back (number n) v = v
read_back (date c) v = c.of_double (c.to_double v)
read_back text v = v
read_back guid v = v
read_back byte_array v = v

abbrev pub AreValues : Kind → List (List ℕ) → Type 0
AreValues k [] = Unit {0}
AreValues k (v ∷ vs) = IsValue k v × AreValues k vs

-- The bytes that `value_size` does not count.
abbrev pub extra_size : Kind → ℕ
extra_size (number n) = 0
extra_size (date c) = 0
extra_size text = 0
extra_size guid = 4
extra_size byte_array = 0

length-encode_value :
    (k : Kind) (v : List ℕ)
    → IsValue k v
    → length (encode_value k v) ≡ value_size k v + extra_size k
unfolding encode_value value_size value_size_uuid
length-encode_value (number n) v h = omega arith
length-encode_value (date c) v h = omega (arith, h)
length-encode_value text v h = omega (arith, length-append v (0 ∷ []))
length-encode_value guid v h =
    omega (arith, length-append (le_bytes 4 (length v)) v, length-le_bytes 4 (length v))
length-encode_value byte_array v h =
    omega (arith, length-append (le_bytes 4 (length v)) v, length-le_bytes 4 (length v))

pub length-encode_values :
    (k : Kind) (vs : List (List ℕ))
    → AreValues k vs
    → length (encode_values k vs) ≡ values_size k vs + length vs * extra_size k
unfolding encode_values values_size
length-encode_values k [] h = omega arith
length-encode_values k (v ∷ vs) h = grind (
  arith,
  length-append (encode_value k v) (encode_values k vs),
  length-encode_value k v h.0,
  length-encode_values k vs h.1,
)

module _ (junk : ℕ → List ℕ) (filler : IsFiller junk) where
  pub write-end : (d v : List ℕ) → write junk (at_end d) v ≡ (true, at_end (d ++ v))
  write-end d v =
      write-at junk d (length d) v (filler (length d + length v - length d)) (omega arith)
      ∙ ap₂ (λ b i. (true, at b i)) (overwrite_end d v) (sym (length-append d v))

  pub write_string-end :
      (d v : List ℕ) → write_string junk (at_end d) v ≡ (true, at_end (d ++ (v ++ (0 ∷ []))))
  write_string-end d v =
      write_string_lem junk filler d (length d) (omega arith) v
      ∙ ap₂ (λ b i. (true, at b i)) (overwrite_end d (v ++ (0 ∷ [])))
          (omega (arith, length-append d (v ++ (0 ∷ [])), length-append v (0 ∷ [])))

  write_array-end :
      (d v : List ℕ)
      → length v < 2 ^ 32
      → write_array junk (at_end d) (some v) ≡ (true, at_end (d ++ (le_bytes 4 (length v) ++ v)))
  write_array-end d v h =
      let block = le_bytes 4 (length v) ++ v in
      write_array_lem junk filler d (length d) (omega arith) v h
      ∙ ap₂ (λ b i. (true, at b i)) (overwrite_end d block)
          (omega (
            arith,
            length-append d block,
            length-append (le_bytes 4 (length v)) v,
            length-le_bytes 4 (length v),
          ))

  write_value-end :
      (k : Kind) (d v : List ℕ)
      → IsValue k v
      → write_value junk k (at_end d) v ≡ (true, at_end (d ++ encode_value k v))
  unfolding write_value encode_value write_uuid
  write_value-end (number n) d v h = write-end d v
  write_value-end (date c) d v h = write-end d (c.to_double v)
  write_value-end text d v h = write_string-end d v
  write_value-end guid d v h = write_array-end d v (omega arith)
  write_value-end byte_array d v h = write_array-end d v h

  pub write_values-end :
      (k : Kind) (d : List ℕ) (vs : List (List ℕ))
      → AreValues k vs
      → write_values junk k (at_end d) vs ≡ (true, at_end (d ++ encode_values k vs))
  unfolding write_values encode_values
  write_values-end k d [] h = ap (λ b. (true, at_end b)) (sym (append-nil d))
  write_values-end k d (v ∷ vs) h = rw (write_value-end k d v h.0) (
      write_values-end k (d ++ encode_value k v) vs h.1
      ∙ ap (λ b. (true, at_end b)) (append_assoc d (encode_value k v) (encode_values k vs)))
