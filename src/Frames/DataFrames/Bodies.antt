-- ===== src/Frames/DataFrames/Bodies.antt =====
-- What `DataFrame::read` reads of a body at the cursor (Frames/DataFrames.cpp).
use threader.Prelude.{
  ℕ, ◌+◌, ◌^◌, ◌≤◌, ◌<◌, ◌≡◌, ap, ◌∙◌, sym, Bool, true, false, Option, none, some, List, [], ◌++◌,
  arith, if◌then◌else◌, length, drop, map, length-append, length-drop, ◌==◌, Bool-cases, inl, inr,
}
use threader.Prelude.Int.{◌-ℤ◌}
use threader.Prelude.Bytes.{le_bytes, length-le_bytes}
use threader.Utils.Stream.{Stream}
use threader.Utils.Stream.Core.{at}
use threader.Utils.Stream.Parse.{read_uint-at}
use threader.Frames.Atoms
use threader.Frames.Atoms.{Atom, AtomDefinition}
use threader.Frames.Atoms.Reading.{standing-append}
use threader.Frames.DataFrames.{
  FrameDefinition, DataFrame, build_frame, set_capacity, set_atoms_capacity, read_atoms, read_body,
  read_array_data, read_frame_data, is_too_much,
}
use threader.Frames.DataFrames.Writing.{frame_with, all_back, Fit, encode_atoms, body_bytes}
use threader.Frames.DataFrames.Reading.{read_atoms-at}

-- A frame that is not an array has one row; one that is an array has at most as many rows as bytes
-- of atoms.
abbrev pub greatest_capacity : FrameDefinition → List (List (List ℕ)) → ℕ
greatest_capacity d vss = if d.is_array then length (encode_atoms d.atoms vss) else 1

abbrev pub IsCapacity : FrameDefinition → ℕ → List (List (List ℕ)) → Type 0
IsCapacity d n vss = (0 < n) × (n < 2 ^ 32) × (n ≤ greatest_capacity d vss)

set_capacity-build_frame :
    (d : FrameDefinition) (n : ℕ)
    → 0 < n
    → set_capacity (build_frame d) n ≡ record {
      definition = d;
      atoms = set_atoms_capacity (map Atoms.new d.atoms) n;
      capacity = n;
      current_index = 0;
      packet_id = 0;
    }
unfolding set_capacity build_frame
set_capacity-build_frame d n h =
    let m : (if n == 0 then 1 else n) ≡ n = ground arith in
    ap
      (λ j. record {
        definition = d;
        atoms = set_atoms_capacity (map Atoms.new d.atoms) j;
        capacity = j;
        current_index = 0;
        packet_id = 0;
      })
      m

module _ (d : FrameDefinition) (n : ℕ) (vss : List (List (List ℕ))) (e : List ℕ)
    (fit : Fit n d.atoms vss) (sized : IsCapacity d n vss) where
  read_body-at :
      (q : ℕ) (rest : List ℕ)
      → q ≤ length e
      → drop q e ≡ encode_atoms d.atoms vss ++ rest
      → read_body (build_frame d) n (at e q) ≡ (
        true,
        frame_with d n (all_back d.atoms vss),
        at e (q + length (encode_atoms d.atoms vss)),
      )
  unfolding read_body
  read_body-at q rest i s =
      ap
        (λ (f : DataFrame).
          let (done, atoms, s1) = read_atoms f.atoms (at e q) in
          (done, record f { atoms = atoms }, s1))
        (set_capacity-build_frame d n sized.0)
      ∙ ap
          (λ (r : Bool × List Atom × Stream). (
            r.0,
            record { definition = d; atoms = r.1; capacity = n; current_index = 0; packet_id = 0 },
            r.2,
          ))
          (read_atoms-at d.atoms n vss e q rest sized.0 fit i s)

  is_too_much-at : (p : ℕ) → p + n ≤ length e → is_too_much n (at e p) ≡ false
  unfolding ◌-ℤ◌
  is_too_much-at p h = ground arith

  -- The body of an array, behind the name.
  read_array_data-at :
      (q : ℕ) (rest : List ℕ)
      → d.is_array ≡ true
      → q ≤ length e
      → drop q e ≡ (le_bytes 4 n ++ encode_atoms d.atoms vss) ++ rest
      → read_array_data (build_frame d) (at e q) ≡ (
        true,
        frame_with d n (all_back d.atoms vss),
        at e (q + length (le_bytes 4 n ++ encode_atoms d.atoms vss)),
      )
  unfolding read_array_data
  read_array_data-at q rest a i s =
      let t = standing-append e q (le_bytes 4 n) (encode_atoms d.atoms vss) rest i s in
      let room : n ≤ length (encode_atoms d.atoms vss) =
        omega (arith, ap (λ b. if b then length (encode_atoms d.atoms vss) else 1) a) in
      let long : q + 4 + n ≤ length e = omega (
        arith,
        length-drop q e,
        ap length s,
        length-append (le_bytes 4 n ++ encode_atoms d.atoms vss) rest,
        length-append (le_bytes 4 n) (encode_atoms d.atoms vss),
        length-le_bytes 4 n,
      ) in
      let width : q + length (le_bytes 4 n) ≡ q + 4 = omega (arith, length-le_bytes 4 n) in
      let back : drop (q + 4) e ≡ encode_atoms d.atoms vss ++ rest =
        ap (λ j. drop j e) (sym width) ∙ t.1 in
      let stop : q + 4 + length (encode_atoms d.atoms vss)
          ≡ q + length (le_bytes 4 n ++ encode_atoms d.atoms vss) =
        omega
          (arith, length-append (le_bytes 4 n) (encode_atoms d.atoms vss), length-le_bytes 4 n) in
      let f = build_frame d in
      ap
        (λ (r : Option ℕ × Stream). elim r.0 [
          | none ↦ (false, f, r.1)
          | some c ↦ if is_too_much c r.1 then (false, f, r.1) else read_body f c r.1
        ])
        (read_uint-at e q 4 n (encode_atoms d.atoms vss ++ rest) (omega arith) i sized.1 t.0)
      ∙ ap (λ (b : Bool). if b then (false, f, at e (q + 4)) else read_body f n (at e (q + 4)))
          (is_too_much-at (q + 4) long)
      ∙ read_body-at (q + 4) rest (omega arith) back
      ∙ ap (λ j. (true, frame_with d n (all_back d.atoms vss), at e j)) stop

  read_body-single :
      (q : ℕ) (rest : List ℕ)
      → d.is_array ≡ false
      → q ≤ length e
      → drop q e ≡ encode_atoms d.atoms vss ++ rest
      → read_body (build_frame d) 1 (at e q) ≡ (
        true,
        frame_with d n (all_back d.atoms vss),
        at e (q + length (encode_atoms d.atoms vss)),
      )
  read_body-single q rest a i s =
      let one : 1 ≡ n =
        omega (arith, ap (λ b. if b then length (encode_atoms d.atoms vss) else 1) a) in
      ap (λ j. read_body (build_frame d) j (at e q)) one ∙ read_body-at q rest i s

  -- The body of a frame, behind the name.
  pub read_frame_data-at :
      (q : ℕ) (rest : List ℕ)
      → q ≤ length e
      → drop q e ≡ body_bytes d n vss ++ rest
      → read_frame_data (build_frame d) (at e q)
        ≡ (true, frame_with d n (all_back d.atoms vss), at e (q + length (body_bytes d n vss)))
  unfolding read_frame_data build_frame
  read_frame_data-at q rest i s =
      let f = build_frame d in
      let branch =
        (λ (b : Bool). if b then read_array_data f (at e q) else read_body f 1 (at e q)) in
      let body = (λ (b : Bool). (if b then le_bytes 4 n else []) ++ encode_atoms d.atoms vss) in
      elim (Bool-cases d.is_array) [
        | inl a ↦
            ap branch a
            ∙ read_array_data-at q rest a i (s ∙ ap (λ b. body b ++ rest) a)
            ∙ ap (λ b. (true, frame_with d n (all_back d.atoms vss), at e (q + length (body b))))
                (sym a)
        | inr a ↦
            ap branch a
            ∙ read_body-single q rest a i (s ∙ ap (λ b. body b ++ rest) a)
            ∙ ap (λ b. (true, frame_with d n (all_back d.atoms vss), at e (q + length (body b))))
                (sym a)
      ]
