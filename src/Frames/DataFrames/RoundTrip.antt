-- ===== src/Frames/DataFrames/RoundTrip.antt =====
-- Frames that DataFrame::write has appended to a stream are read back by the factory
-- (Frames/DataFrames.cpp, Frames/DataFramesFactory.cpp).
use threader.Prelude.{
  ℕ, ◌+◌, ◌-◌, ◌%◌, ◌^◌, ◌≤◌, ◌<◌, ◌≡◌, refl, ap, ◌∙◌, sym, Bool, false, Option, none, some, List,
  [], ◌∷◌, ◌++◌, arith, if◌then◌else◌, length, drop, length-append, length-drop, append-nil,
  append_assoc, drop-append_self,
}
use threader.Prelude.Int.{pos, ◌+ℤ◌}
use threader.Prelude.Bytes.{le_bytes, length-le_bytes}
use threader.Utils.Stream.{Stream, set_position}
use threader.Utils.Stream.Core.{at, set_position-at}
use threader.Utils.Stream.Typed.{IsFiller}
use threader.Utils.Stream.Parse.{NoZero, read_uint-at, read_string-at}
use threader.Frames.Atoms.Encoding.{at_end}
use threader.Frames.Atoms.Reading.{standing-append}
use threader.Frames.FrameQueue.{to_int}
use threader.Frames.DataFrames.{
  FrameDefinition, DataFrame, Definitions, frame_size, build_frame, build_frame_by_name,
  definition_by_key, read_frame_data, read_named_frame, frame_step, read_frame, write_frame,
}
use threader.Frames.DataFrames.Writing.{
  frame_with, all_back, Fit, body_bytes, frame_bytes, length-frame_bytes, uncounted,
  write_frame-end,
}
use threader.Frames.DataFrames.Bodies.{IsCapacity, read_frame_data-at}

-- What a frame holds.
pub record Content : Type 0 where
  pub definition : FrameDefinition
  pub capacity : ℕ
  pub values : List (List (List ℕ))

abbrev pub frame_of : Content → DataFrame
frame_of c = frame_with c.definition c.capacity c.values

-- The frame as it is when it has been written and read.
abbrev pub frame_back : Content → DataFrame
frame_back c = frame_with c.definition c.capacity (all_back c.definition.atoms c.values)

abbrev pub bytes_of : Content → List ℕ
bytes_of c = frame_bytes c.definition c.capacity c.values

-- The name and what follows it.
abbrev pub named_bytes : Content → List ℕ
named_bytes c = (c.definition.name ++ (0 ∷ [])) ++ body_bytes c.definition c.capacity c.values

-- A frame that fits in the wire format, of a definition that the factory finds by the frame's name.
abbrev pub IsSound : (List ℕ → List ℕ) → Definitions → Content → Type 0
IsSound to_upper defs c =
    NoZero c.definition.name
    × Fit c.capacity c.definition.atoms c.values
    × IsCapacity c.definition c.capacity c.values
    × (frame_size (frame_of c) + 4 < 2 ^ 31)
    × (definition_by_key to_upper defs c.definition.name ≡ some c.definition)

pub pos-add : (a b : ℕ) → pos a +ℤ pos b ≡ pos (a + b)
unfolding ◌+ℤ◌
pos-add a b = ground arith

module _ (to_upper : List ℕ → List ℕ) (defs : Definitions) where
  frame_step-small : (k : ℕ) → k + 4 < 2 ^ 31 → frame_step k ≡ pos (k + 4)
  unfolding to_int
  frame_step-small k h =
      let whole : (k + 4) % 2 ^ 32 ≡ k + 4 = omega arith in ap to_int whole ∙ ground arith

  read_named_frame-at :
      (c : Content) (e : List ℕ) (q : ℕ) (rest : List ℕ)
      → IsSound to_upper defs c
      → q ≤ length e
      → drop q e ≡ named_bytes c ++ rest
      → read_named_frame to_upper (some defs) (at e q)
        ≡ (some (frame_back c), at e (q + length (named_bytes c)))
  unfolding read_named_frame build_frame_by_name
  read_named_frame-at c e q rest h i s =
      let name = c.definition.name in
      let body = body_bytes c.definition c.capacity c.values in
      let f = build_frame c.definition in
      let t = standing-append e q (name ++ (0 ∷ [])) body rest i s in
      let width : q + length (name ++ (0 ∷ [])) ≡ q + (length name + 1) =
        omega (arith, length-append name (0 ∷ [])) in
      let p = q + (length name + 1) in
      let stop : p + length body ≡ q + length (named_bytes c) =
        omega (arith, length-append (name ++ (0 ∷ [])) body, length-append name (0 ∷ [])) in
      ap
        (λ (r : List ℕ × Stream). elim (build_frame_by_name to_upper (some defs) r.0) [
          | none ↦ (none, r.1)
          | some g ↦
              let (done, f1, s2) = read_frame_data g r.1 in ((if done then some f1 else none), s2)
        ])
        (read_string-at e q name (body ++ rest) i h.0
          (t.0 ∙ append_assoc name (0 ∷ []) (body ++ rest)))
      ∙ ap
          (λ (o : Option FrameDefinition).
            let found : Option DataFrame = elim o [ none ↦ none | some d ↦ some (build_frame d) ] in
            elim found [
              | none ↦ (none, at e p)
              | some g ↦
                  let (done, f1, s2) = read_frame_data g (at e p) in
                  ((if done then some f1 else none), s2)
            ])
          h.4
      ∙ ap (λ (r : Bool × DataFrame × Stream). ((if r.0 then some r.1 else none), r.2))
          (read_frame_data-at c.definition c.capacity c.values e h.1 h.2 p rest (omega (arith, t.2))
            (ap (λ j. drop j e) (sym width) ∙ t.1))
      ∙ ap (λ j. (some (frame_back c), at e j)) stop

  -- A frame at the cursor, behind a size that need not be its own.
  pub read_frame-at_size :
      (k : ℕ) (c : Content) (e : List ℕ) (q : ℕ) (rest : List ℕ)
      → k < 2 ^ 32
      → IsSound to_upper defs c
      → q ≤ length e
      → drop q e ≡ (le_bytes 4 k ++ named_bytes c) ++ rest
      → read_frame to_upper (some defs) false (at e q) ≡ (
        some (frame_back c),
        set_position (at e (q + 4 + length (named_bytes c))) (pos q +ℤ frame_step k),
      )
  unfolding read_frame
  read_frame-at_size k c e q rest m h i s =
      let t = standing-append e q (le_bytes 4 k) (named_bytes c) rest i s in
      let width : q + length (le_bytes 4 k) ≡ q + 4 = omega (arith, length-le_bytes 4 k) in
      ap
        (λ (r : Option ℕ × Stream). elim r.0 [
          | none ↦ (none, set_position r.1 (pos q +ℤ frame_step 0))
          | some j ↦
              let (f, s2) = read_named_frame to_upper (some defs) r.1 in
              (f, set_position s2 (pos q +ℤ frame_step j))
        ])
        (read_uint-at e q 4 k (named_bytes c ++ rest) (omega arith) i m t.0)
      ∙ ap (λ (r : Option DataFrame × Stream). (r.0, set_position r.1 (pos q +ℤ frame_step k)))
          (read_named_frame-at c e (q + 4) rest h (omega (arith, t.2))
            (ap (λ j. drop j e) (sym width) ∙ t.1))

  -- A frame at the cursor.
  pub read_frame-at :
      (c : Content) (e : List ℕ) (q : ℕ) (rest : List ℕ)
      → IsSound to_upper defs c
      → q ≤ length e
      → drop q e ≡ bytes_of c ++ rest
      → read_frame to_upper (some defs) false (at e q)
        ≡ (some (frame_back c), at e (q + 4 + frame_size (frame_of c)))
  unfolding frame_bytes
  read_frame-at c e q rest h i s =
      let k = frame_size (frame_of c) in
      let stop : q + (k + 4) ≤ length e = omega (
        arith,
        length-drop q e,
        ap length s,
        length-append (bytes_of c) rest,
        length-frame_bytes c.definition c.capacity c.values h.1,
      ) in
      let behind = at e (q + 4 + length (named_bytes c)) in
      read_frame-at_size k c e q rest (omega (arith, h.3)) h i s
      ∙ ap (λ z. (some (frame_back c), set_position behind (pos q +ℤ z))) (frame_step-small k h.3)
      ∙ ap (λ v. (some (frame_back c), v))
          (ap (set_position behind) (pos-add q (k + 4))
            ∙ set_position-at e (q + 4 + length (named_bytes c)) (q + (k + 4)) stop)
      ∙ ap (λ j. (some (frame_back c), at e j)) (omega arith)

  -- A sound frame that is written at the end of a stream is read back from there, with its capacity and
  -- its values, of which each date is what its `double` is turned back into. The cursor then stands behind the frame, less the bytes of its values that the
  -- size of the frame does not count: four for each GUID.
  pub read_frame-write_frame :
      (junk : ℕ → List ℕ) (c : Content) (d : List ℕ)
      → IsFiller junk
      → IsSound to_upper defs c
      → read_frame to_upper
          (some defs)
          false
          (set_position (write_frame junk (frame_of c) (at_end d)).1 (pos (length d)))
        ≡ (
          some (frame_back c),
          at (d ++ bytes_of c) (length (d ++ bytes_of c) - uncounted c.definition.atoms c.values),
        )
  read_frame-write_frame junk c d f h =
      let e = d ++ bytes_of c in
      let small : frame_size (frame_of c) < 2 ^ 32 = omega (arith, h.3) in
      let inside : length d ≤ length e = omega (arith, length-append d (bytes_of c)) in
      ap
        (λ (r : Bool × Stream).
          read_frame to_upper (some defs) false (set_position r.1 (pos (length d))))
        (write_frame-end junk f c.definition c.capacity c.values d h.1 small)
      ∙ ap (read_frame to_upper (some defs) false) (set_position-at e (length e) (length d) inside)
      ∙ read_frame-at c e (length d) [] h inside
          (drop-append_self (length d) d (bytes_of c) refl ∙ sym (append-nil (bytes_of c)))
      ∙ ap (λ j. (some (frame_back c), at e j))
          (omega (
            arith,
            length-append d (bytes_of c),
            length-frame_bytes c.definition c.capacity c.values h.1,
          ))
