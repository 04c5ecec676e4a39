-- ===== src/Utils/Stream/Core.antt =====
-- DataStream::setPosition, read and write (Utils/DataStream.cpp) on a stream whose cursor lies
-- within its array.
use threader.Prelude.{
  ℕ, ◌+◌, ◌-◌, ◌≤◌, ◌<◌, ◌≡◌, ap, ◌∙◌, sym, true, none, some, List, ◌++◌, arith, length, take, drop,
  length-append, length-take, length-drop, take-append, drop_all,
}
use threader.Prelude.Int.{pos, ◌+ℤ◌}
use threader.Utils.Stream.{Stream, set_position, end_of_data, read, write, overwrite, grow}

-- A stream over `d` with its cursor at `p`.
abbrev pub at : List ℕ → ℕ → Stream
at d p = record { array = some d; position = pos p }

pub set_position-at : (d : List ℕ) (p q : ℕ) → q ≤ length d → set_position (at d p) (pos q) ≡ at d q
unfolding set_position
set_position-at d p q h = ground arith

pub read-at :
    (d : List ℕ) (p n : ℕ)
    → 0 < n
    → p + n ≤ length d
    → read (at d p) n ≡ (some (take n (drop p d)), at d (p + n))
unfolding read set_position end_of_data ◌+ℤ◌
read-at d p n h k = ground arith

pub read-at_short :
    (d : List ℕ) (p n : ℕ)
    → p ≤ length d
    → length d < p + n
    → read (at d p) n ≡ (none, at d (length d))
unfolding read set_position end_of_data ◌+ℤ◌
read-at_short d p n h k = ground arith

pub length-overwrite :
    (d : List ℕ) (p : ℕ) (v : List ℕ)
    → p ≤ length d
    → length (overwrite d p v) ≡ p + length v + (length d - (p + length v))
length-overwrite d p v h = omega (
  arith,
  length-append (take p d) (v ++ drop (p + length v) d),
  length-append v (drop (p + length v) d),
  length-take p d,
  length-drop (p + length v) d,
)

-- What `resize` adds is overwritten.
overwrite-grow :
    (junk : ℕ → List ℕ) (d : List ℕ) (p : ℕ) (v : List ℕ)
    → length (junk (p + length v - length d)) ≡ p + length v - length d
    → p ≤ length d
    → length d < p + length v
    → overwrite (grow junk d (p + length v)) p v ≡ overwrite d p v
overwrite-grow junk d p v j h k =
    let filler = junk (p + length v - length d) in
    ap (λ t. t ++ (v ++ drop (p + length v) (d ++ filler))) (take-append p d filler h)
    ∙ ap (λ t. take p d ++ (v ++ t))
        (drop_all (p + length v) (d ++ filler) (omega (arith, length-append d filler, j))
          ∙ sym (drop_all (p + length v) d (omega arith)))

pub write-at :
    (junk : ℕ → List ℕ) (d : List ℕ) (p : ℕ) (v : List ℕ)
    → length (junk (p + length v - length d)) ≡ p + length v - length d
    → p ≤ length d
    → write junk (at d p) v ≡ (true, at (overwrite d p v) (p + length v))
unfolding write set_position ◌+ℤ◌
write-at junk d p v j h = ground (arith, length-overwrite d p v h, overwrite-grow junk d p v j h)
