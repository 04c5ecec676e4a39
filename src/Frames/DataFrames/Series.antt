-- ===== src/Frames/DataFrames/Series.antt =====
-- `DataFramesFactory::readFrames` (Frames/DataFramesFactory.cpp) on a row of frames that
-- `DataFrame::write` has appended.
use threader.Prelude.{
  ℕ, zero, suc, ◌+◌, ◌^◌, ◌≤◌, ◌<◌, ◌≡◌, refl, ap, ◌∙◌, sym, Bool, true, false, Option, none, some,
  List, [], ◌∷◌, ◌++◌, arith, length, drop, map, length-append, length-drop, append-nil,
  append_assoc, drop-append_self,
}
use threader.Prelude.Int.{pos}
use threader.Utils.Stream.{Stream, set_position, end_of_data}
use threader.Utils.Stream.Core.{at, set_position-at}
use threader.Utils.Stream.Typed.{IsFiller}
use threader.Frames.Atoms.Encoding.{at_end}
use threader.Frames.Atoms.Reading.{standing-append}
use threader.Frames.DataFrames.{
  DataFrame, Definitions, frame_size, read_frame, read_frames, write_frame,
}
use threader.Frames.DataFrames.Writing.{length-frame_bytes, uncounted, write_frame-end}
use threader.Frames.DataFrames.RoundTrip.{
  Content, frame_of, frame_back, bytes_of, IsSound, read_frame-at,
}

-- The frames of a list, one behind the other.
unfoldable pub bytes_of_all : List Content → List ℕ
bytes_of_all [] = []
bytes_of_all (c ∷ cs) = bytes_of c ++ bytes_of_all cs

unfoldable pub write_frames : (ℕ → List ℕ) → List Content → Stream → Stream
write_frames junk [] s = s
write_frames junk (c ∷ cs) s = write_frames junk cs (write_frame junk (frame_of c) s).1

-- Sound frames whose values are all counted in their sizes.
abbrev pub AreSound : (List ℕ → List ℕ) → Definitions → List Content → Type 0
AreSound to_upper defs [] = Unit {0}
AreSound to_upper defs (c ∷ cs) =
    IsSound to_upper defs c
    × (uncounted c.definition.atoms c.values ≡ 0)
    × AreSound to_upper defs cs

end_of_data-over : (e : List ℕ) (q : ℕ) → q ≡ length e → end_of_data (at e q) ≡ true
unfolding end_of_data
end_of_data-over e q h = ground arith

pub end_of_data-inside : (e : List ℕ) (q : ℕ) → q < length e → end_of_data (at e q) ≡ false
unfolding end_of_data
end_of_data-inside e q h = ground arith

-- One turn of `read_frames`.
abbrev pub row_step :
    Bool
    → Option DataFrame × Stream
    → Stream
    → (Stream → Option (List DataFrame × Stream))
    → Option (List DataFrame × Stream)
row_step over r s next = elim over [
  | true ↦ some ([], s)
  | false ↦ elim r.0 [
    | none ↦ some ([], r.1)
    | some frame ↦ elim (next r.1) [ none ↦ none | some l ↦ some (frame ∷ l.0, l.1) ]
  ]
]

module _ (to_upper : List ℕ → List ℕ) (defs : Definitions) where
  write_frames-end :
      (junk : ℕ → List ℕ) (cs : List Content) (e : List ℕ)
      → IsFiller junk
      → AreSound to_upper defs cs
      → write_frames junk cs (at_end e) ≡ at_end (e ++ bytes_of_all cs)
  unfolding write_frames bytes_of_all
  write_frames-end junk [] e f h = ap at_end (sym (append-nil e))
  write_frames-end junk (c ∷ cs) e f h =
      let small : frame_size (frame_of c) < 2 ^ 32 = omega (arith, h.0.3) in
      ap (λ (r : Bool × Stream). write_frames junk cs r.1)
        (write_frame-end junk f c.definition c.capacity c.values e h.0.1 small)
      ∙ write_frames-end junk cs (e ++ bytes_of c) f h.2
      ∙ ap at_end (append_assoc e (bytes_of c) (bytes_of_all cs))

  read_frames-at :
      (fuel : ℕ) (cs : List Content) (e : List ℕ) (q : ℕ)
      → AreSound to_upper defs cs
      → q ≤ length e
      → drop q e ≡ bytes_of_all cs
      → length cs < fuel
      → read_frames to_upper (some defs) fuel (at e q) ≡ some (map frame_back cs, at_end e)
  unfolding read_frames bytes_of_all
  read_frames-at zero cs e q h i s f = absurd (omega arith)
  read_frames-at (suc fuel) [] e q h i s f =
      let more = read_frames to_upper (some defs) fuel in
      let over : q ≡ length e = omega (arith, ap length s, length-drop q e) in
      ap (λ b. row_step b (read_frame to_upper (some defs) false (at e q)) (at e q) more)
        (end_of_data-over e q over)
      ∙ ap (λ j. some ([], at e j)) over
  read_frames-at (suc fuel) (c ∷ cs) e q h i s f =
      let more = read_frames to_upper (some defs) fuel in
      let k = frame_size (frame_of c) in
      let width = length-frame_bytes c.definition c.capacity c.values h.0.1 in
      let t = standing-append e q (bytes_of c) (bytes_of_all cs) [] i (s ∙ sym (append-nil _)) in
      let next : q + length (bytes_of c) ≡ q + 4 + k = omega (arith, width, h.1) in
      let inside : q < length e = omega (arith, width, t.2) in
      ap (λ b. row_step b (read_frame to_upper (some defs) false (at e q)) (at e q) more)
        (end_of_data-inside e q inside)
      ∙ ap (λ r. row_step false r (at e q) more)
          (read_frame-at to_upper defs c e q (bytes_of_all cs) h.0 i s)
      ∙ ap
          (λ (r : Option (List DataFrame × Stream)). elim r [
            | none ↦ none
            | some l ↦ some (frame_back c ∷ l.0, l.1)
          ])
          (read_frames-at fuel cs e (q + 4 + k) h.2 (omega (arith, t.2))
            (ap (λ j. drop j e) (sym next) ∙ t.1 ∙ append-nil _) (omega arith))

  -- Sound frames without GUID values, written one behind the other at the end of a stream, are read
  -- back from there in one call, all of them and in order, with their values, of which each date is what
  -- its `double` is turned back into, and the cursor ends behind the last one. Fuel that exceeds their
  -- number is enough.
  pub read_frames-write_frames :
      (junk : ℕ → List ℕ) (fuel : ℕ) (cs : List Content) (d : List ℕ)
      → IsFiller junk
      → AreSound to_upper defs cs
      → length cs < fuel
      → read_frames to_upper
          (some defs)
          fuel
          (set_position (write_frames junk cs (at_end d)) (pos (length d)))
        ≡ some (map frame_back cs, at_end (d ++ bytes_of_all cs))
  read_frames-write_frames junk fuel cs d f h k =
      let e = d ++ bytes_of_all cs in
      let inside : length d ≤ length e = omega (arith, length-append d (bytes_of_all cs)) in
      ap (λ v. read_frames to_upper (some defs) fuel (set_position v (pos (length d))))
        (write_frames-end junk cs d f h)
      ∙ ap (read_frames to_upper (some defs) fuel) (set_position-at e (length e) (length d) inside)
      ∙ read_frames-at fuel cs e (length d) h inside
          (drop-append_self (length d) d (bytes_of_all cs) refl) k
