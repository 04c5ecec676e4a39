-- ===== src/Frames/DataFrames/Writing.antt =====
-- What `DataFrame::write` appends to a stream (Frames/DataFrames.cpp).
use threader.Prelude.{
  ℕ, ◌+◌, ◌*◌, ◌%◌, ◌^◌, ◌<◌, ◌≡◌, refl, ap, ◌∙◌, sym, Bool, true, false, List, [], ◌∷◌, ◌++◌,
  arith, if◌then◌else◌, map, length, length-append, append-nil, append_assoc,
}
use threader.Prelude.Bytes.{le_bytes, length-le_bytes}
use threader.Utils.Stream.{Stream, write_uint}
use threader.Utils.Stream.Typed.{IsFiller}
use threader.Frames.Atoms.{
  number, date, text, guid, byte_array, Atom, AtomDefinition, atom_size, write_atom,
}
use threader.Frames.Atoms.Encoding.{
  at_end, read_back, encode_values, AreValues, extra_size, length-encode_values, write-end,
  write_string-end, write_values-end,
}
use threader.Frames.DataFrames.{
  FrameDefinition, DataFrame, frame_size, atoms_size, write_atoms, write_body, write_frame,
}

-- Atoms of the definitions `ds` with the values of `vss`.
unfoldable pub atoms_with : List AtomDefinition → List (List (List ℕ)) → List Atom
atoms_with [] vss = []
atoms_with (d ∷ ds) [] = []
atoms_with (d ∷ ds) (vs ∷ vss) =
    record { definition = d; values = vs; current_index = 0 } ∷ atoms_with ds vss

-- A frame with the values of `vss`.
abbrev pub frame_with : FrameDefinition → ℕ → List (List (List ℕ)) → DataFrame
frame_with d n vss = record {
  definition = d;
  atoms = atoms_with d.atoms vss;
  capacity = n;
  current_index = 0;
  packet_id = 0;
}

-- The values as they are when they have been written and read.
unfoldable pub all_back : List AtomDefinition → List (List (List ℕ)) → List (List (List ℕ))
all_back [] vss = []
all_back (d ∷ ds) [] = []
all_back (d ∷ ds) (vs ∷ vss) = map (read_back d.kind) vs ∷ all_back ds vss

-- The number of values of an atom in a frame of capacity `n`.
abbrev pub values_count : ℕ → AtomDefinition → ℕ
values_count n d = elim d.kind [
  | number w ↦ if d.is_scalar then 1 else n
  | date c ↦ if d.is_scalar then 1 else n
  | text ↦ if d.is_scalar then 1 else n
  | guid ↦ if d.is_scalar then 1 else n
  | byte_array ↦ 1
]

-- Values for every atom, as many as it has.
abbrev pub Fit : ℕ → List AtomDefinition → List (List (List ℕ)) → Type 0
Fit n [] [] = Unit {0}
Fit n [] (vs ∷ vss) = ⊥
Fit n (d ∷ ds) [] = ⊥
Fit n (d ∷ ds) (vs ∷ vss) = AreValues d.kind vs × (length vs ≡ values_count n d) × Fit n ds vss

unfoldable pub encode_atoms : List AtomDefinition → List (List (List ℕ)) → List ℕ
encode_atoms [] vss = []
encode_atoms (d ∷ ds) [] = []
encode_atoms (d ∷ ds) (vs ∷ vss) = encode_values d.kind vs ++ encode_atoms ds vss

-- The capacity, in frames that are arrays.
abbrev pub capacity_bytes : FrameDefinition → ℕ → List ℕ
capacity_bytes d n = if d.is_array then le_bytes 4 n else []

-- What stands behind the name.
abbrev pub body_bytes : FrameDefinition → ℕ → List (List (List ℕ)) → List ℕ
body_bytes d n vss = capacity_bytes d n ++ encode_atoms d.atoms vss

-- A frame on the wire: its size, its name and its body.
unfoldable pub frame_bytes : FrameDefinition → ℕ → List (List (List ℕ)) → List ℕ
frame_bytes d n vss =
    le_bytes 4 (frame_size (frame_with d n vss)) ++ ((d.name ++ (0 ∷ [])) ++ body_bytes d n vss)

-- The bytes of the values that the sizes do not count.
unfoldable pub uncounted : List AtomDefinition → List (List (List ℕ)) → ℕ
uncounted [] vss = 0
uncounted (d ∷ ds) [] = 0
uncounted (d ∷ ds) (vs ∷ vss) = length vs * extra_size d.kind + uncounted ds vss

length-encode_atoms :
    (n : ℕ) (ds : List AtomDefinition) (vss : List (List (List ℕ)))
    → Fit n ds vss
    → length (encode_atoms ds vss) ≡ atoms_size (atoms_with ds vss) + uncounted ds vss
unfolding encode_atoms atoms_size atoms_with uncounted atom_size
length-encode_atoms n [] [] h = refl
length-encode_atoms n [] (vs ∷ vss) h = elim h [ ]
length-encode_atoms n (d ∷ ds) [] h = elim h [ ]
length-encode_atoms n (d ∷ ds) (vs ∷ vss) h =
    let rest = length-encode_atoms n ds vss h.2 in
    omega (
      arith,
      length-append (encode_values d.kind vs) (encode_atoms ds vss),
      length-encode_values d.kind vs h.0,
      rest,
    )

pub length-capacity_bytes :
    (d : FrameDefinition) (n : ℕ) → length (capacity_bytes d n) ≡ (if d.is_array then 4 else 0)
length-capacity_bytes d n =
    elim d.is_array as (λ b. length (if b then le_bytes 4 n else []) ≡ (if b then 4 else 0)) [
      | true ↦ length-le_bytes 4 n
      | false ↦ refl
    ]

pub length-frame_bytes :
    (d : FrameDefinition) (n : ℕ) (vss : List (List (List ℕ)))
    → Fit n d.atoms vss
    → length (frame_bytes d n vss) ≡ 4 + frame_size (frame_with d n vss) + uncounted d.atoms vss
unfolding frame_bytes frame_size
length-frame_bytes d n vss h =
    let size = le_bytes 4 (frame_size (frame_with d n vss)) in
    let name = d.name ++ (0 ∷ []) in
    omega (
      arith,
      length-append size (name ++ body_bytes d n vss),
      length-append name (body_bytes d n vss),
      length-append d.name (0 ∷ []),
      length-append (capacity_bytes d n) (encode_atoms d.atoms vss),
      length-le_bytes 4 (frame_size (frame_with d n vss)),
      length-capacity_bytes d n,
      length-encode_atoms n d.atoms vss h,
    )

module _ (junk : ℕ → List ℕ) (filler : IsFiller junk) where
  write_uint-end :
      (e : List ℕ) (n v : ℕ) → write_uint junk (at_end e) n v ≡ (true, at_end (e ++ le_bytes n v))
  unfolding write_uint
  write_uint-end e n v = write-end junk filler e (le_bytes n v)

  write_atoms-end :
      (n : ℕ) (ds : List AtomDefinition) (vss : List (List (List ℕ))) (e : List ℕ)
      → Fit n ds vss
      → write_atoms junk (atoms_with ds vss) (at_end e) ≡ (true, at_end (e ++ encode_atoms ds vss))
  unfolding write_atoms atoms_with encode_atoms write_atom
  write_atoms-end n [] [] e h = ap (λ b. (true, at_end b)) (sym (append-nil e))
  write_atoms-end n [] (vs ∷ vss) e h = elim h [ ]
  write_atoms-end n (d ∷ ds) [] e h = elim h [ ]
  write_atoms-end n (d ∷ ds) (vs ∷ vss) e h = rw (write_values-end junk filler d.kind e vs h.0) (
      write_atoms-end n ds vss (e ++ encode_values d.kind vs) h.2
      ∙ ap (λ b. (true, at_end b)) (append_assoc e (encode_values d.kind vs) (encode_atoms ds vss)))

  write_capacity-end :
      (d : FrameDefinition) (n : ℕ) (e : List ℕ)
      → (if d.is_array then write_uint junk (at_end e) 4 n else (true, at_end e))
        ≡ (true, at_end (e ++ capacity_bytes d n))
  write_capacity-end d n e =
      elim d.is_array
        as (λ b.
          (if b then write_uint junk (at_end e) 4 n else (true, at_end e))
          ≡ (true, at_end (e ++ (if b then le_bytes 4 n else [])))) [
            | true ↦ write_uint-end e 4 n
            | false ↦ ap (λ t. (true, at_end t)) (sym (append-nil e))
          ]

  write_body-end :
      (d : FrameDefinition) (n : ℕ) (vss : List (List (List ℕ))) (e : List ℕ)
      → Fit n d.atoms vss
      → write_body junk (frame_with d n vss) (at_end e) ≡ (true, at_end (e ++ body_bytes d n vss))
  unfolding write_body
  write_body-end d n vss e h =
      ap
        (λ (r : Bool × Stream).
          if r.0 then write_atoms junk (atoms_with d.atoms vss) r.1 else (false, r.1))
        (write_capacity-end d n e)
      ∙ write_atoms-end n d.atoms vss (e ++ capacity_bytes d n) h
      ∙ ap (λ b. (true, at_end b)) (append_assoc e (capacity_bytes d n) (encode_atoms d.atoms vss))

  -- A frame whose size fits in four bytes is appended as its size, its name and its body.
  pub write_frame-end :
      (d : FrameDefinition) (n : ℕ) (vss : List (List (List ℕ))) (e : List ℕ)
      → Fit n d.atoms vss
      → frame_size (frame_with d n vss) < 2 ^ 32
      → write_frame junk (frame_with d n vss) (at_end e) ≡ (true, at_end (e ++ frame_bytes d n vss))
  unfolding write_frame frame_bytes
  write_frame-end d n vss e h k =
      let fits = frame_size (frame_with d n vss) in
      let size = le_bytes 4 fits in
      let name = d.name ++ (0 ∷ []) in
      let whole : fits % 2 ^ 32 ≡ fits = omega arith in
      rw (ap (write_uint junk (at_end e) 4) whole ∙ write_uint-end e 4 fits) (
        rw (write_string-end junk filler (e ++ size) d.name) (
          write_body-end d n vss ((e ++ size) ++ name) h
          ∙ ap (λ b. (true, at_end b))
              (append_assoc (e ++ size) name (body_bytes d n vss)
                ∙ append_assoc e size (name ++ body_bytes d n vss))))
