-- ===== src/Utils/Stream/Safety.antt =====
-- The cursor of a DataStream stays within its array (Utils/DataStream.cpp).
use threader.Prelude.{
  ℕ, ◌+◌, ◌≤◌, ◌<◌, ◌≡◌, Option, none, some, List, [], ◌∷◌, arith, length, take, drop,
  if◌then◌else◌, if_either, Option-cases, inl, inr, ◌⊎◌, length-take, length-drop,
}
use threader.Prelude.Int.{ℤ, pos, negsuc, ◌+ℤ◌, ◌≤ℤ◌, ltb_ℤ}
use native.Mathlib.Decide.{dec_le}
use threader.Utils.Stream.{
  Stream, size, end_of_data, bytes_at, new, set_data, set_position, read, write,
}
use threader.Utils.Stream.Core.{at, read-at, read-at_short}

-- With an array the cursor lies in it or at its end.
abbrev pub IsWithin : Option (List ℕ) → ℤ → Type 0
IsWithin none q = Unit {0}
IsWithin (some d) q = (pos 0 ≤ℤ q) × (q ≤ℤ pos (length d))

abbrev pub IsValid : Stream → Type 0
IsValid s = IsWithin s.array s.position

-- The calls of a client.
pub data Call : Type 0 where
  retarget : Option (List ℕ) → Call
  seek : ℤ → Call
  get : ℕ → Call
  put : List ℕ → Call

unfoldable pub step : (ℕ → List ℕ) → Stream → Call → Stream
step junk s (retarget d) = set_data s d
step junk s (seek v) = set_position s v
step junk s (get n) = (read s n).1
step junk s (put v) = (write junk s v).1

-- `run` is the stream after a list of calls.
unfoldable pub run : (ℕ → List ℕ) → Stream → List Call → Stream
run junk s [] = s
run junk s (c ∷ cs) = run junk (step junk s c) cs

set_position-IsValid :
    (a : Option (List ℕ)) (q v : ℤ) → IsValid (set_position (record { array = a; position = q }) v)
unfolding set_position
set_position-IsValid none q v = tt
set_position-IsValid (some d) q (pos n) = ground arith
set_position-IsValid (some d) q (negsuc n) = ground arith

set_position-array : (s : Stream) (v : ℤ) → (set_position s v).array ≡ s.array
unfolding set_position
set_position-array s v = ground arith

seek-IsValid : (s : Stream) (v : ℤ) → IsValid (set_position s v)
seek-IsValid s v = set_position-IsValid s.array s.position v

read-IsValid : (s : Stream) (n : ℕ) → IsValid s → IsValid (read s n).1
unfolding read
read-IsValid s n h =
    let s1 = if ltb_ℤ (size s) (s.position +ℤ pos n) then set_position s (size s) else s in
    if_either {A = Option (List ℕ) × Stream} (λ r. IsValid r.1) (end_of_data s1) (none, s1)
      (some (bytes_at s1 n), set_position s1 (s1.position +ℤ pos n))
      (if_either IsValid (ltb_ℤ (size s) (s.position +ℤ pos n)) (set_position s (size s)) s
        (seek-IsValid s (size s)) h)
      (seek-IsValid s1 (s1.position +ℤ pos n))

write-IsValid :
    (junk : ℕ → List ℕ) (s : Stream) (v : List ℕ) → IsValid s → IsValid (write junk s v).1
unfolding write
write-IsValid junk s v h = elim (Option-cases s.array) [
  | inl e ↦ rw (e, write) h
  | inr (d, e) ↦ rw (e, write) (seek-IsValid _ _)
]

new-IsValid : (a : Option (List ℕ)) → IsWithin a (pos 0)
new-IsValid none = tt
new-IsValid (some d) = (omega arith, omega arith)

step-IsValid : (junk : ℕ → List ℕ) (s : Stream) (c : Call) → IsValid s → IsValid (step junk s c)
unfolding step set_data
step-IsValid junk s (retarget d) h = new-IsValid d
step-IsValid junk s (seek v) h = seek-IsValid s v
step-IsValid junk s (get n) h = read-IsValid s n h
step-IsValid junk s (put v) h = write-IsValid junk s v h

run-IsValid :
    (junk : ℕ → List ℕ) (s : Stream) (cs : List Call) → IsValid s → IsValid (run junk s cs)
unfolding run
run-IsValid junk s [] h = h
run-IsValid junk s (c ∷ cs) h = run-IsValid junk (step junk s c) cs (step-IsValid junk s c h)

-- After any calls on a new stream the cursor lies within the array, whatever was sought, read and
-- written and whatever `resize` fills in.
pub run-new_stream-IsValid :
    (junk : ℕ → List ℕ) (a : Option (List ℕ)) (cs : List Call) → IsValid (run junk (new a) cs)
unfolding new
run-new_stream-IsValid junk a cs = run-IsValid junk _ cs (new-IsValid a)

-- A read of at least one byte on a stream whose cursor is within its array gives exactly the bytes
-- asked for, from the cursor on, if there are as many, and otherwise fails with the cursor at the
-- end; the array stays as it is.
pub read-cases :
    (d : List ℕ) (p n : ℕ)
    → p ≤ length d
    → 0 < n
    → ((p + n ≤ length d)
        × (read (at d p) n ≡ (some (take n (drop p d)), at d (p + n)))
        × (length (take n (drop p d)) ≡ n))
      ⊎ ((length d < p + n) × (read (at d p) n ≡ (none, at d (length d))))
read-cases d p n h k = elim (dec_le (p + n) (length d)) [
  | yes fits ↦
      inl (fits, read-at d p n k fits, omega (arith, length-take n (drop p d), length-drop p d))
  | no long ↦ inr (omega arith, read-at_short d p n h (omega arith))
]
