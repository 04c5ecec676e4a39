-- ===== src/Frames/RawData/Create.antt =====
-- What the constructor of DataFrameRawData makes of a block (Frames/DataFrameRawData.cpp).
use threader.Prelude.{
  ℕ, suc, ◌+◌, ◌-◌, ◌<◌, ◌≡◌, refl, ap, ◌∙◌, sym, true, false, none, some, List, [], ◌∷◌, ◌++◌,
  if◌then◌else◌, length, take, drop, take-append_self, drop-append_self, length-append, arith,
  Bool-cases, inl, inr, take_all, append_assoc,
}
use threader.Prelude.Int.{negsuc}
use threader.Utils.Stream.{find_zero, c_string}
use threader.Utils.Stream.Parse.{NoZero, find_zero-append, c_string-append}
use threader.Frames.RawData.{Frame, is_control, invalid_frame, frame_of, create, data_bytes}

-- The frame of a block, as a function of the block alone.
unfoldable pub frame_of_block : List ℕ → Frame
frame_of_block [] = invalid_frame
frame_of_block (b ∷ t) =
    if is_control b
    then invalid_frame
    else frame_of (b ∷ t) (elim (find_zero (b ∷ t)) [ none ↦ 0 | some i ↦ i ])

-- A block that lies at the start of the memory makes its frame, whatever follows it.
pub create-append :
    (block rest : List ℕ) → create (block ++ rest) (length block) ≡ some (frame_of_block block)
unfolding create frame_of_block
create-append [] rest = refl
create-append (b ∷ t) rest =
    let cut : take (length t) (t ++ rest) ≡ t = take-append_self (length t) t rest refl in
    elim (Bool-cases (is_control b)) [
      | inl e ↦ rw e
      | inr e ↦ rw (e, cut) (ground (arith, length-append t rest))
    ]

-- A block shorter than its length is read past its end, unless its first byte rejects it.
pub create_short :
    (b : ℕ) (t : List ℕ) (n : ℕ)
    → is_control b ≡ false
    → length t < n
    → create (b ∷ t) (suc n) ≡ none
unfolding create
create_short b t n e h = rw e (ground arith)

pub create_control :
    (b : ℕ) (t : List ℕ) (n : ℕ) → is_control b ≡ true → create (b ∷ t) (suc n) ≡ some invalid_frame
unfolding create
create_control b t n e = rw e

frame_of-long :
    (block : List ℕ) (z : ℕ)
    → 0 < z
    → z + 1 < length block
    → frame_of block z ≡ record {
      is_valid = true;
      buffer = block;
      size = length block;
      data_offset = z + 1;
      data_length = length block - z - 1;
      name_string = c_string block;
      packet_id = negsuc 0;
      definition = none;
    }
unfolding frame_of
frame_of-long block z h k = ground arith

drop_name : (name body : List ℕ) → drop (length name + 1) (name ++ (0 ∷ body)) ≡ body
drop_name name body =
    ap (drop (length name + 1)) (sym (append_assoc name (0 ∷ []) body))
    ∙ drop-append_self (length name + 1) (name ++ (0 ∷ [])) body
        (omega (arith, length-append name (0 ∷ [])))

-- The frame with this name and these data.
abbrev pub named_frame : List ℕ → List ℕ → Frame
named_frame name body = record {
  is_valid = true;
  buffer = name ++ (0 ∷ body);
  size = length (name ++ (0 ∷ body));
  data_offset = length name + 1;
  data_length = length body;
  name_string = name;
  packet_id = negsuc 0;
  definition = none;
}

named-long :
    (name body : List ℕ)
    → 0 < length name
    → 0 < length body
    → NoZero name
    → frame_of (name ++ (0 ∷ body)) (length name) ≡ named_frame name body
named-long name body h k z =
    let total : length (name ++ (0 ∷ body)) ≡ length name + suc (length body) =
      length-append name (0 ∷ body) in
    let len : length (name ++ (0 ∷ body)) - length name - 1 ≡ length body = omega (arith, total) in
    frame_of-long (name ++ (0 ∷ body)) (length name) h (omega (arith, total))
    ∙ ap
        (λ m. record (named_frame name body) {
          data_length = m;
          name_string = c_string (name ++ (0 ∷ body));
        })
        len
    ∙ ap (λ m. record (named_frame name body) { name_string = m }) (c_string-append name body z)

-- A block of a name that starts with a printable ASCII character and holds no zero byte, a zero
-- byte and at least one byte of data makes a valid frame with that name and exactly those data,
-- whatever follows the block.
pub create-named :
    (b : ℕ) (name body rest : List ℕ)
    → is_control b ≡ false
    → NoZero (b ∷ name)
    → 0 < length body
    → (create (((b ∷ name) ++ (0 ∷ body)) ++ rest) (length ((b ∷ name) ++ (0 ∷ body)))
        ≡ some (named_frame (b ∷ name) body))
      × (data_bytes (named_frame (b ∷ name) body) ≡ body)
unfolding frame_of_block
create-named b name body rest c z h = (
  create-append ((b ∷ name) ++ (0 ∷ body)) rest
      ∙ ap
          (λ t. some (
            if t
            then invalid_frame
            else frame_of ((b ∷ name) ++ (0 ∷ body))
                (elim (find_zero ((b ∷ name) ++ (0 ∷ body))) [ none ↦ 0 | some i ↦ i ])))
          c
      ∙ ap (λ t. some (frame_of ((b ∷ name) ++ (0 ∷ body)) (elim t [ none ↦ 0 | some i ↦ i ])))
          (find_zero-append (b ∷ name) body z)
      ∙ ap (λ t. some t) (named-long (b ∷ name) body (omega arith) h z),
  ap (take (length body)) (drop_name (b ∷ name) body) ∙ take_all (length body) body (omega arith),
)

pub frame_of_block-size :
    (block : List ℕ)
    → (frame_of_block block).is_valid ≡ true
    → ((frame_of_block block).size ≡ length block) × ((frame_of_block block).buffer ≡ block)
unfolding frame_of_block frame_of
frame_of_block-size [] h = cc
frame_of_block-size (b ∷ t) h = ground arith
