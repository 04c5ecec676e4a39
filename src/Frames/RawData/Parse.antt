-- ===== src/Frames/RawData/Parse.antt =====
-- DataFrameRawData::parse on the bytes that DataFrameRawData::appendByteArray writes
-- (Frames/DataFrameRawData.cpp).
use threader.Prelude.{
  ℕ, zero, suc, ◌+◌, ◌-◌, ◌%◌, ◌^◌, ◌≤◌, ◌<◌, ◌≡◌, refl, ap, ◌∙◌, sym, Bool, true, false, Option,
  some, List, [], ◌∷◌, ◌++◌, leb, if◌then◌else◌, length, take, drop, take-append_self,
  drop-append_self, length-append, length-drop, drop-drop, arith, tests, Bool-cases, inl, inr,
  append_assoc, append-nil,
}
use threader.Prelude.Bytes.{le_bytes, le_value, length-le_bytes, le_value-le_bytes}
use threader.Frames.RawData.{
  Frame, create, Outcome, parsed, parse_loop, parse_block, parse_round, keep, parse,
}
use threader.Frames.RawData.Create.{frame_of_block, create-append}

-- The serialised form of a list of blocks: each behind its length in four bytes.
unfoldable pub encode : List (List ℕ) → List ℕ
encode [] = []
encode (b ∷ bs) = le_bytes 4 (length b) ++ (b ++ encode bs)

-- The valid frames of a list of blocks, in order.
unfoldable pub valid_frames : List (List ℕ) → List Frame
valid_frames [] = []
valid_frames (b ∷ bs) =
    let rest = valid_frames bs in
    if (frame_of_block b).is_valid then frame_of_block b ∷ rest else rest

parse_loop_stop :
    (fuel : ℕ) (source : List ℕ) (position : ℕ) (acc : List Frame)
    → length source < position + 4
    → parse_loop (suc fuel) source position acc ≡ some (parsed acc)
unfolding parse_loop parse_round
parse_loop_stop fuel source position acc h = ground arith

parse_block_step :
    (again : ℕ → List Frame → Option Outcome) (source : List ℕ) (start n : ℕ) (f : Frame)
    (acc : List Frame)
    → length source < 2 ^ 32
    → start + n ≤ length source
    → create (drop start source) n ≡ some f
    → parse_block again source start n acc ≡ again (start + n) (keep acc f)
unfolding parse_block
parse_block_step again source start n f acc small fits made =
    let next : (start + n) % 2 ^ 32 ≡ start + n = omega arith in
    rw (made, next, parse_block) (ground arith)

parse_loop_step :
    (fuel : ℕ) (source : List ℕ) (position n : ℕ) (f : Frame) (acc : List Frame)
    → length source < 2 ^ 32
    → position + 4 + n ≤ length source
    → le_value (take 4 (drop position source)) ≡ n
    → create (drop (position + 4) source) n ≡ some f
    → parse_loop (suc fuel) source position acc
      ≡ parse_loop fuel source (position + 4 + n) (keep acc f)
unfolding parse_loop parse_round
parse_loop_step fuel source position n f acc small fits len made =
    let start : (position + 4) % 2 ^ 32 ≡ position + 4 = omega arith in
    rw (start, len, parse_round)
      (ground (arith, parse_block_step (parse_loop fuel source) source (position + 4) n f acc))

keep-append :
    (v : Bool) (acc : List Frame) (f : Frame) (rest : List Frame)
    → (if v then acc ++ (f ∷ []) else acc) ++ rest ≡ acc ++ (if v then f ∷ rest else rest)
keep-append true acc f rest = append_assoc acc (f ∷ []) rest
keep-append false acc f rest = refl

keep-valid_frames :
    (acc : List Frame) (b : List ℕ) (bs : List (List ℕ))
    → keep acc (frame_of_block b) ++ valid_frames bs ≡ acc ++ valid_frames (b ∷ bs)
unfolding valid_frames
keep-valid_frames acc b bs =
    keep-append (frame_of_block b).is_valid acc (frame_of_block b) (valid_frames bs)

encode-empty :
    (blocks : List (List ℕ)) (rest : List ℕ)
    → leb (length (encode blocks ++ rest)) 0 ≡ true
    → some (parsed []) ≡ some (parsed (valid_frames blocks))
unfolding encode valid_frames le_bytes
encode-empty [] rest h = refl
encode-empty (b ∷ bs) rest h = absurd (omega tests)

pub parse_loop-encode :
    (blocks : List (List ℕ)) (rest source : List ℕ) (fuel position : ℕ) (acc : List Frame)
    → length blocks < fuel
    → length source < 2 ^ 32
    → position ≤ length source
    → length rest < 4
    → drop position source ≡ encode blocks ++ rest
    → parse_loop fuel source position acc ≡ some (parsed (acc ++ valid_frames blocks))
unfolding encode valid_frames
parse_loop-encode blocks rest source zero position acc h small i r e = absurd (omega arith)
parse_loop-encode [] rest source (suc fuel) position acc h small i r e =
    parse_loop_stop fuel source position acc
      (omega (arith, ap length e, length-drop position source))
    ∙ ap (λ t. some (parsed t)) (sym (append-nil acc))
parse_loop-encode (b ∷ bs) rest source (suc fuel) position acc h small i r e =
    let n = length b in
    let split : drop position source ≡ le_bytes 4 n ++ (b ++ (encode bs ++ rest)) =
      e
      ∙ append_assoc (le_bytes 4 n) (b ++ encode bs) rest
      ∙ ap (λ t. le_bytes 4 n ++ t) (append_assoc b (encode bs) rest) in
    let total : length source - position ≡ 4 + (n + length (encode bs ++ rest)) = omega (
      arith,
      ap length split,
      length-drop position source,
      length-append (le_bytes 4 n) (b ++ (encode bs ++ rest)),
      length-append b (encode bs ++ rest),
      length-le_bytes 4 n,
    ) in
    let body : drop (position + 4) source ≡ b ++ (encode bs ++ rest) =
      sym (drop-drop 4 position source)
      ∙ ap (drop 4) split
      ∙ drop-append_self 4 (le_bytes 4 n) (b ++ (encode bs ++ rest)) (sym (length-le_bytes 4 n)) in
    let after : drop (position + 4 + n) source ≡ encode bs ++ rest =
      sym (drop-drop n (position + 4) source)
      ∙ ap (drop n) body
      ∙ drop-append_self n b (encode bs ++ rest) refl in
    let len : le_value (take 4 (drop position source)) ≡ n =
      ap (λ t. le_value (take 4 t)) split
      ∙ ap le_value
          (take-append_self 4 (le_bytes 4 n) (b ++ (encode bs ++ rest)) (sym (length-le_bytes 4 n)))
      ∙ le_value-le_bytes 4 n (omega (arith, total)) in
    parse_loop_step fuel source position n (frame_of_block b) acc small (omega (arith, total)) len
      (ap (λ t. create t n) body ∙ create-append b (encode bs ++ rest))
    ∙ parse_loop-encode bs rest source fuel (position + 4 + n) (keep acc (frame_of_block b))
        (omega arith) small (omega (arith, total)) r after
    ∙ ap (λ t. some (parsed t)) (keep-valid_frames acc b bs)

-- A byte array of fewer than 2 ^ 32 bytes that holds blocks behind their lengths, and fewer than
-- four bytes after them, is parsed into exactly the valid frames of the blocks, in order, whatever
-- the blocks are; one round for each block and one more are enough.
pub parse-encode :
    (blocks : List (List ℕ)) (rest : List ℕ) (fuel : ℕ)
    → length (encode blocks ++ rest) < 2 ^ 32
    → length rest < 4
    → length blocks < fuel
    → parse fuel (encode blocks ++ rest) ≡ some (parsed (valid_frames blocks))
unfolding parse
parse-encode blocks rest fuel small r h =
    elim (Bool-cases (leb (length (encode blocks ++ rest)) 0)) [
      | inl e ↦ rw e (encode-empty blocks rest e)
      | inr e ↦ rw e (
          parse_loop-encode blocks rest (encode blocks ++ rest) fuel 0 [] h small (omega arith) r
            refl)
    ]
