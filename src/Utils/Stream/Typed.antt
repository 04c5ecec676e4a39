-- ===== src/Utils/Stream/Typed.antt =====
-- What DataStream writes of a value it reads back: raw bytes, unsigned integers, byte arrays and
-- texts (Utils/DataStream.h).
use threader.Prelude.{
  ℕ, ◌+◌, ◌-◌, ◌%◌, ◌^◌, ◌≤◌, ◌<◌, ◌≡◌, refl, ap, subst, ◌∙◌, sym, true, false, some, List, ◌++◌,
  arith, if◌then◌else◌, length, take, drop, length-append, length-take, take-append_self,
  drop-append_self, drop-drop, drop_all, take_all, append-nil, append_assoc,
}
use threader.Prelude.Int.{pos}
use threader.Prelude.Bytes.{le_bytes, length-le_bytes, le_value-le_bytes}
use threader.Utils.Stream.{set_position, read, write, overwrite, write_uint, read_uint, write_array}
use threader.Utils.Stream.Core.{at, set_position-at, read-at, write-at, length-overwrite}

-- The bytes that `resize` adds have the number asked for.
abbrev pub IsFiller : (ℕ → List ℕ) → Type 0
IsFiller junk = (n : ℕ) → length (junk n) ≡ n

pub drop-overwrite :
    (d : List ℕ) (p : ℕ) (v : List ℕ)
    → p ≤ length d
    → drop p (overwrite d p v) ≡ v ++ drop (p + length v) d
drop-overwrite d p v h =
    drop-append_self p (take p d) (v ++ drop (p + length v) d) (omega (arith, length-take p d))

pub overwrite_end : (d v : List ℕ) → overwrite d (length d) v ≡ d ++ v
overwrite_end d v =
    ap (λ t. t ++ (v ++ drop (length d + length v) d)) (take_all (length d) d (omega arith))
    ∙ ap (λ t. d ++ (v ++ t)) (drop_all (length d + length v) d (omega arith))
    ∙ ap (λ t. d ++ t) (append-nil v)

-- Two writes in a row are one write of both runs of bytes.
pub overwrite-overwrite :
    (d : List ℕ) (p : ℕ) (v w : List ℕ)
    → p ≤ length d
    → overwrite (overwrite d p v) (p + length v) w ≡ overwrite d p (v ++ w)
overwrite-overwrite d p v w h =
    let front : take (p + length v) (overwrite d p v) ≡ take p d ++ v =
      ap (take (p + length v)) (sym (append_assoc (take p d) v (drop (p + length v) d)))
      ∙ take-append_self (p + length v) (take p d ++ v) (drop (p + length v) d)
          (omega (arith, length-append (take p d) v, length-take p d)) in
    let back : drop (p + length v + length w) (overwrite d p v) ≡ drop (p + length (v ++ w)) d =
      ap (λ t. drop (p + length v + length w) t)
        (sym (append_assoc (take p d) v (drop (p + length v) d)))
      ∙ sym (drop-drop (length w) (p + length v) ((take p d ++ v) ++ drop (p + length v) d))
      ∙ ap (drop (length w)) (
          drop-append_self (p + length v) (take p d ++ v) (drop (p + length v) d)
            (omega (arith, length-append (take p d) v, length-take p d)))
      ∙ drop-drop (length w) (p + length v) d
      ∙ ap (λ k. drop k d) (omega (arith, length-append v w)) in
    ap (λ t. t ++ (w ++ drop (p + length v + length w) (overwrite d p v))) front
    ∙ ap (λ t. (take p d ++ v) ++ (w ++ t)) back
    ∙ append_assoc (take p d) v (w ++ drop (p + length (v ++ w)) d)
    ∙ ap (λ t. take p d ++ t) (sym (append_assoc v w (drop (p + length (v ++ w)) d)))

module _ (junk : ℕ → List ℕ) (filler : IsFiller junk) (d : List ℕ) (p : ℕ)
    (inside : p ≤ length d) where
  write-inside : (v : List ℕ) → write junk (at d p) v ≡ (true, at (overwrite d p v) (p + length v))
  write-inside v = write-at junk d p v (filler (p + length v - length d)) inside

  -- Bytes written at the cursor are read back from there, and the cursor ends behind them.
  pub read-write :
      (v : List ℕ)
      → 0 < length v
      → read (set_position (write junk (at d p) v).1 (pos p)) (length v)
        ≡ (some v, (write junk (at d p) v).1)
  read-write v h = rw (write-inside v) (
      ap (λ t. read t (length v))
        (set_position-at (overwrite d p v) (p + length v) p
          (omega (arith, length-overwrite d p v inside)))
      ∙ read-at (overwrite d p v) p (length v) h (omega (arith, length-overwrite d p v inside))
      ∙ ap (λ t. (some t, at (overwrite d p v) (p + length v)))
          (ap (take (length v)) (drop-overwrite d p v inside)
            ∙ take-append_self (length v) v (drop (p + length v) d) refl))

  -- Two writes in a row.
  pub write-write :
      (v w : List ℕ)
      → write junk (write junk (at d p) v).1 w
        ≡ (true, at (overwrite d p (v ++ w)) (p + length v + length w))
  write-write v w = rw (write-inside v) (
      write-at junk (overwrite d p v) (p + length v) w
        (filler (p + length v + length w - length (overwrite d p v)))
        (omega (arith, length-overwrite d p v inside))
      ∙ ap (λ t. (true, at t (p + length v + length w))) (overwrite-overwrite d p v w inside))

  -- An unsigned integer of `n` bytes is read back.
  pub read_uint-write_uint :
      (n v : ℕ)
      → 0 < n
      → v < 256 ^ n
      → read_uint (set_position (write_uint junk (at d p) n v).1 (pos p)) n
        ≡ (some v, (write_uint junk (at d p) n v).1)
  unfolding read_uint write_uint
  read_uint-write_uint n v h k =
      let w = le_bytes n v in
      let e : read (set_position (write junk (at d p) w).1 (pos p)) n
          ≡ (some w, (write junk (at d p) w).1) =
        subst
          (λ m.
            read (set_position (write junk (at d p) w).1 (pos p)) m
            ≡ (some w, (write junk (at d p) w).1))
          (length-le_bytes n v) (read-write w (omega (arith, length-le_bytes n v))) in
      rw (e, read_uint) (rw (le_value-le_bytes n v k))

  -- A byte array goes to the stream as its size in four bytes and its bytes.
  pub write_array_lem :
      (v : List ℕ)
      → length v < 2 ^ 32
      → write_array junk (at d p) (some v)
        ≡ (true, at (overwrite d p (le_bytes 4 (length v) ++ v)) (p + 4 + length v))
  unfolding write_array write_uint
  write_array_lem v h =
      let e : length v % 2 ^ 32 ≡ length v = omega arith in
      let l : p + length (le_bytes 4 (length v)) + length v ≡ p + 4 + length v =
        omega (arith, length-le_bytes 4 (length v)) in
      rw (e, take_all (length v) v (omega arith))
        (ap (λ t. if t.0 then write junk t.1 v else (false, t.1))
            (write-inside (le_bytes 4 (length v)))
          ∙ ap (λ t. write junk t v) (sym (ap (λ t. t.1) (write-inside (le_bytes 4 (length v)))))
          ∙ write-write (le_bytes 4 (length v)) v
          ∙ ap (λ k. (true, at (overwrite d p (le_bytes 4 (length v) ++ v)) k)) l)
