-- ===== src/Frames/DataFrames/Reading.antt =====
-- What `DataFrame::read` and the factory read of a frame at the cursor (Frames/DataFrames.cpp,
-- Frames/DataFramesFactory.cpp).
use threader.Prelude.{
  ℕ, ◌+◌, ◌-◌, ◌≤◌, ◌<◌, ◌≡◌, refl, ap, ◌∙◌, sym, Bool, true, List, [], ◌∷◌, ◌++◌, arith,
  if◌then◌else◌, length, take, drop, replicate, map, length-append, length-replicate, length-take,
}
use threader.Utils.Stream.{Stream}
use threader.Utils.Stream.Core.{at}
use threader.Frames.Atoms
use threader.Frames.Atoms.{
  Kind, number, date, text, guid, byte_array, Atom, AtomDefinition, default_value, capacity, resize,
  resize_atom, read_atom, read_values,
}
use threader.Frames.Atoms.Encoding.{encode_values, AreValues, read_back}
use threader.Frames.Atoms.Reading.{standing-append, read_values-at}
use threader.Frames.DataFrames.{set_atoms_capacity, read_atoms}
use threader.Frames.DataFrames.Writing.{atoms_with, values_count, Fit, encode_atoms, all_back}

-- The values of an atom that has just been built for `m` of them.
abbrev fresh_values : Kind → ℕ → List (List ℕ)
fresh_values (number w) m = resize (number w) m (default_value (number w) ∷ [])
fresh_values (date c) m = resize (date c) m (default_value (date c) ∷ [])
fresh_values text m = resize text m (default_value text ∷ [])
fresh_values guid m = resize guid m (default_value guid ∷ [])
fresh_values byte_array m = default_value byte_array ∷ []

length-resize : (k : Kind) (m : ℕ) (v : List ℕ) → 0 < m → length (resize k m (v ∷ [])) ≡ m
unfolding resize
length-resize k m v h = omega (
  arith,
  length-append (take m (v ∷ [])) (replicate (m - 1) (default_value k)),
  length-take m (v ∷ []),
  length-replicate (m - 1) (default_value k),
)

resize_atom_new :
    (d : AtomDefinition) (k : Kind) (v : List ℕ) (m : ℕ)
    → 0 < m
    → resize_atom k (record { definition = d; values = v ∷ []; current_index = 0 }) m
      ≡ record { definition = d; values = resize k m (v ∷ []); current_index = 0 }
unfolding resize_atom
resize_atom_new d k v m h = ground arith

set_capacity-new :
    (name : List ℕ) (k : Kind) (b : Bool) (m : ℕ)
    → 0 < m
    → Atoms.set_capacity (Atoms.new (record { name = name; kind = k; is_scalar = b })) m ≡ record {
      definition = record { name = name; kind = k; is_scalar = b };
      values = fresh_values k m;
      current_index = 0;
    }
unfolding Atoms.set_capacity Atoms.new
set_capacity-new name (number w) b m h = resize_atom_new _ (number w) _ m h
set_capacity-new name (date c) b m h = resize_atom_new _ (date c) _ m h
set_capacity-new name text b m h = resize_atom_new _ text _ m h
set_capacity-new name guid b m h = resize_atom_new _ guid _ m h
set_capacity-new name byte_array b m h = refl

length-fresh_values :
    (name : List ℕ) (k : Kind) (b : Bool) (n : ℕ)
    → 0 < n
    → length (fresh_values k (if b then 1 else n))
      ≡ values_count n (record { name = name; kind = k; is_scalar = b })
length-fresh_values name (number w) b n h =
    length-resize (number w) (if b then 1 else n) _ (ground arith)
length-fresh_values name (date c) b n h =
    length-resize (date c) (if b then 1 else n) _ (ground arith)
length-fresh_values name text b n h = length-resize text (if b then 1 else n) _ (ground arith)
length-fresh_values name guid b n h = length-resize guid (if b then 1 else n) _ (ground arith)
length-fresh_values name byte_array b n h = refl

read_atom-new :
    (d : AtomDefinition) (n : ℕ) (vs : List (List ℕ)) (e : List ℕ) (q : ℕ) (rest : List ℕ)
    → 0 < n
    → AreValues d.kind vs
    → length vs ≡ values_count n d
    → q ≤ length e
    → drop q e ≡ encode_values d.kind vs ++ rest
    → read_atom (Atoms.set_capacity (Atoms.new d) (if d.is_scalar then 1 else n)) (at e q) ≡ (
      true,
      record { definition = d; values = map (read_back d.kind) vs; current_index = 0 },
      at e (q + length (encode_values d.kind vs)),
    )
unfolding read_atom capacity
read_atom-new d n vs e q rest h v c i s =
    let m = if d.is_scalar then 1 else n in
    let some_values : 0 < m = ground arith in
    ap (λ a. read_atom a (at e q)) (set_capacity-new d.name d.kind d.is_scalar m some_values)
    ∙ ap
        (λ (r : Bool × List (List ℕ) × Stream).
          (r.0, record { definition = d; values = r.1; current_index = 0 }, r.2))
        (ap (λ j. read_values d.kind j (at e q))
            (length-fresh_values d.name d.kind d.is_scalar n h ∙ sym c)
          ∙ read_values-at d.kind vs e q rest v i s)

pub read_atoms-at :
    (ds : List AtomDefinition) (n : ℕ) (vss : List (List (List ℕ))) (e : List ℕ) (q : ℕ)
    (rest : List ℕ)
    → 0 < n
    → Fit n ds vss
    → q ≤ length e
    → drop q e ≡ encode_atoms ds vss ++ rest
    → read_atoms (set_atoms_capacity (map Atoms.new ds) n) (at e q)
      ≡ (true, atoms_with ds (all_back ds vss), at e (q + length (encode_atoms ds vss)))
unfolding read_atoms set_atoms_capacity atoms_with all_back encode_atoms Atoms.new
read_atoms-at [] n [] e q rest h f i s = ap (λ j. (true, [], at e j)) (omega arith)
read_atoms-at [] n (vs ∷ vss) e q rest h f i s = elim f [ ]
read_atoms-at (d ∷ ds) n [] e q rest h f i s = elim f [ ]
read_atoms-at (d ∷ ds) n (vs ∷ vss) e q rest h f i s =
    let t = standing-append e q (encode_values d.kind vs) (encode_atoms ds vss) rest i s in
    let stop : q + length (encode_values d.kind vs) + length (encode_atoms ds vss)
        ≡ q + length (encode_values d.kind vs ++ encode_atoms ds vss) =
      omega (arith, length-append (encode_values d.kind vs) (encode_atoms ds vss)) in
    let a : Atom = record {
      definition = d;
      values = map (read_back d.kind) vs;
      current_index = 0;
    } in
    rw (read_atom-new d n vs e q (encode_atoms ds vss ++ rest) h f.0 f.1 i t.0) (
      rw (read_atoms-at ds n vss e (q + length (encode_values d.kind vs)) rest h f.2 t.2 t.1)
        (ap (λ j. (true, a ∷ atoms_with ds (all_back ds vss), at e j)) stop))
