-- ===== src/Frames/DataFrames/Endless.antt =====
-- `DataFramesFactory::readFrames` (Frames/DataFramesFactory.cpp) on a frame whose size field leads
-- back to its start.
use threader.Prelude.{
  ℕ, zero, suc, ◌+◌, ◌-◌, ◌^◌, ◌≤◌, ◌<◌, ◌≡◌, refl, ap, ◌∙◌, false, Option, none, some, List, ◌∷◌,
  ◌++◌, arith, length, drop, length-append, length-drop,
}
use threader.Prelude.Int.{pos, ◌+ℤ◌}
use threader.Prelude.Bytes.{le_bytes, length-le_bytes}
use threader.Utils.Stream.{Stream, set_position}
use threader.Utils.Stream.Core.{at, set_position-at}
use threader.Frames.FrameQueue.{to_int}
use threader.Frames.DataFrames.{DataFrame, Definitions, frame_step, read_frame, read_frames}
use threader.Frames.DataFrames.Series.{row_step, end_of_data-inside}
use threader.Frames.DataFrames.RoundTrip.{
  Content, frame_back, IsSound, named_bytes, read_frame-at_size, pos-add,
}

frame_step-back : frame_step (2 ^ 32 - 4) ≡ pos 0
unfolding to_int
frame_step-back = refl

module _ (to_upper : List ℕ → List ℕ) (defs : Definitions) where
  -- A frame whose size field holds 2 ^ 32 - 4 is read and leaves the cursor at its own start.
  read_frame-stays :
      (c : Content) (e : List ℕ) (q : ℕ) (rest : List ℕ)
      → IsSound to_upper defs c
      → q ≤ length e
      → drop q e ≡ (le_bytes 4 (2 ^ 32 - 4) ++ named_bytes c) ++ rest
      → read_frame to_upper (some defs) false (at e q) ≡ (some (frame_back c), at e q)
  read_frame-stays c e q rest h i s =
      let behind = at e (q + 4 + length (named_bytes c)) in
      read_frame-at_size to_upper defs (2 ^ 32 - 4) c e q rest (omega arith) h i s
      ∙ ap (λ z. (some (frame_back c), set_position behind (pos q +ℤ z))) frame_step-back
      ∙ ap (λ v. (some (frame_back c), v))
          (ap (set_position behind) (pos-add q 0)
            ∙ set_position-at e (q + 4 + length (named_bytes c)) (q + 0) (omega arith)
            ∙ ap (at e) (omega arith))

  -- If the bytes at the cursor are a sound frame of a known definition whose size field holds
  -- 2 ^ 32 - 4, `readFrames` does not end: it returns with no amount of fuel.
  pub read_frames-stays :
      (fuel : ℕ) (c : Content) (e : List ℕ) (q : ℕ) (rest : List ℕ)
      → IsSound to_upper defs c
      → q ≤ length e
      → drop q e ≡ (le_bytes 4 (2 ^ 32 - 4) ++ named_bytes c) ++ rest
      → read_frames to_upper (some defs) fuel (at e q) ≡ none
  unfolding read_frames
  read_frames-stays zero c e q rest h i s = refl
  read_frames-stays (suc fuel) c e q rest h i s =
      let more = read_frames to_upper (some defs) fuel in
      let inside : q < length e = omega (
        arith,
        length-drop q e,
        ap length s,
        length-append (le_bytes 4 (2 ^ 32 - 4) ++ named_bytes c) rest,
        length-append (le_bytes 4 (2 ^ 32 - 4)) (named_bytes c),
        length-le_bytes 4 (2 ^ 32 - 4),
      ) in
      ap (λ b. row_step b (read_frame to_upper (some defs) false (at e q)) (at e q) more)
        (end_of_data-inside e q inside)
      ∙ ap (λ r. row_step false r (at e q) more) (read_frame-stays c e q rest h i s)
      ∙ ap
          (λ (r : Option (List DataFrame × Stream)). elim r [
            | none ↦ none
            | some l ↦ some (frame_back c ∷ l.0, l.1)
          ])
          (read_frames-stays fuel c e q rest h i s)
