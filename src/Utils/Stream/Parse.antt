-- ===== src/Utils/Stream/Parse.antt =====
-- Reading byte arrays and texts from bytes that stand at the cursor (Utils/DataStream.h).
use threader.Prelude.{
  ℕ, zero, suc, ◌+◌, ◌-◌, ◌^◌, ◌≤◌, ◌<◌, ◌≡◌, refl, ap, ◌∙◌, sym, true, false, none, some, List, [],
  ◌∷◌, ◌++◌, arith, length, take, drop, length-append, length-drop, take-append_self,
  drop-append_self, drop-drop, take_all, append_assoc,
}
use threader.Prelude.Int.{pos, negsuc, ◌+ℤ◌, ◌-ℤ◌}
use threader.Prelude.Bytes.{le_bytes, le_value, length-le_bytes, le_value-le_bytes}
use threader.Utils.Stream.{
  Stream, set_position, read_uint, read_array_body, read_array, find_zero, c_string, index_of_zero,
  read_string, string_size, read_string_body,
}
use threader.Utils.Stream.Core.{at, read-at, read-at_short}

-- No byte of the list is zero.
abbrev pub NoZero : List ℕ → Type 0
NoZero [] = Unit {0}
NoZero (x ∷ xs) = (0 < x) × NoZero xs

pub read_uint-at :
    (e : List ℕ) (q n v : ℕ) (rest : List ℕ)
    → 0 < n
    → q ≤ length e
    → v < 256 ^ n
    → drop q e ≡ le_bytes n v ++ rest
    → read_uint (at e q) n ≡ (some v, at e (q + n))
unfolding read_uint
read_uint-at e q n v rest h i k s =
    let long : q + n ≤ length e = omega (
      arith,
      ap length s,
      length-append (le_bytes n v) rest,
      length-le_bytes n v,
      length-drop q e,
    ) in
    let front : take n (drop q e) ≡ le_bytes n v =
      ap (take n) s ∙ take-append_self n (le_bytes n v) rest (sym (length-le_bytes n v)) in
    rw (read-at e q n h long, read_uint)
      (ap (λ t. (some (le_value t), at e (q + n))) front
        ∙ ap (λ t. (some t, at e (q + n))) (le_value-le_bytes n v k))

pub read_uint-at_short :
    (e : List ℕ) (q n : ℕ)
    → q ≤ length e
    → length e < q + n
    → read_uint (at e q) n ≡ (none, at e (length e))
unfolding read_uint
read_uint-at_short e q n h k = rw (read-at_short e q n h k, read_uint)

pub read_array_body-at :
    (e : List ℕ) (q n : ℕ)
    → q + n ≤ length e
    → read_array_body (at e q) n ≡ (true, take n (drop q e), at e (q + n))
unfolding read_array_body set_position ◌+ℤ◌ ◌-ℤ◌
read_array_body-at e q zero h = ground arith
read_array_body-at e q (suc n) h = ground arith

-- A size that is too large is cut to what is left.
pub read_array_body-at_long :
    (e : List ℕ) (q n : ℕ)
    → q < length e
    → length e < q + n
    → read_array_body (at e q) n ≡ (true, drop q e, at e (length e))
unfolding read_array_body set_position ◌+ℤ◌ ◌-ℤ◌
read_array_body-at_long e q n h k =
    ground (arith, take_all (length e - q) (drop q e) (omega (arith, length-drop q e)))

read_array_of_uint :
    (s : Stream) (old : List ℕ) (k : ℕ) (t : Stream)
    → read_uint s 4 ≡ (some k, t)
    → read_array s old ≡ read_array_body t k
unfolding read_array
read_array_of_uint s old k t h =
    ap (λ r. elim r.0 [ none ↦ (false, old, r.1) | some n ↦ read_array_body r.1 n ]) h

pub read_array-at :
    (e : List ℕ) (q : ℕ) (v rest old : List ℕ)
    → q ≤ length e
    → length v < 2 ^ 32
    → drop q e ≡ le_bytes 4 (length v) ++ (v ++ rest)
    → read_array (at e q) old ≡ (true, v, at e (q + 4 + length v))
read_array-at e q v rest old h k s =
    let back : drop (q + 4) e ≡ v ++ rest =
      sym (drop-drop 4 q e)
      ∙ ap (drop 4) s
      ∙ drop-append_self 4 (le_bytes 4 (length v)) (v ++ rest)
          (sym (length-le_bytes 4 (length v))) in
    let long : q + 4 + length v ≤ length e = omega (
      arith,
      ap length s,
      length-append (le_bytes 4 (length v)) (v ++ rest),
      length-append v rest,
      length-le_bytes 4 (length v),
      length-drop q e,
    ) in
    read_array_of_uint (at e q) old (length v) (at e (q + 4))
      (read_uint-at e q 4 (length v) (v ++ rest) (omega arith) h k s)
    ∙ read_array_body-at e (q + 4) (length v) long
    ∙ ap (λ t. (true, t, at e (q + 4 + length v)))
        (ap (take (length v)) back ∙ take-append_self (length v) v rest refl)

pub find_zero-append : (v rest : List ℕ) → NoZero v → find_zero (v ++ (0 ∷ rest)) ≡ some (length v)
unfolding find_zero
find_zero-append [] rest h = refl
find_zero-append (x ∷ v) rest h = ground (arith, find_zero-append v rest h.1)

find_zero-none : (v : List ℕ) → NoZero v → find_zero v ≡ none
unfolding find_zero
find_zero-none [] h = refl
find_zero-none (x ∷ v) h = ground (arith, find_zero-none v h.1)

pub c_string-append : (v rest : List ℕ) → NoZero v → c_string (v ++ (0 ∷ rest)) ≡ v
unfolding c_string
c_string-append [] rest h = refl
c_string-append (x ∷ v) rest h = ground (arith, c_string-append v rest h.1)

c_string_all : (v : List ℕ) → NoZero v → c_string v ≡ v
unfolding c_string
c_string_all [] h = refl
c_string_all (x ∷ v) h = ground (arith, c_string_all v h.1)

take-suc-append : (v rest : List ℕ) (b : ℕ) → take (length v + 1) (v ++ (b ∷ rest)) ≡ v ++ (b ∷ [])
take-suc-append v rest b =
    ap (take (length v + 1)) (sym (append_assoc v (b ∷ []) rest))
    ∙ take-append_self (length v + 1) (v ++ (b ∷ [])) rest (omega (arith, length-append v (b ∷ [])))

string_size-found :
    (e : List ℕ) (q n : ℕ)
    → index_of_zero (at e q) ≡ pos (q + n)
    → string_size (at e q) ≡ pos (n + 1)
unfolding string_size ◌+ℤ◌ ◌-ℤ◌
string_size-found e q n h = ground arith

string_size-missing :
    (e : List ℕ) (q : ℕ)
    → q ≤ length e
    → index_of_zero (at e q) ≡ negsuc 0
    → string_size (at e q) ≡ pos (length e - q)
unfolding string_size ◌+ℤ◌ ◌-ℤ◌
string_size-missing e q i h = ground arith

read_string_body-at :
    (e : List ℕ) (q n : ℕ)
    → q + n ≤ length e
    → read_string_body (at e q) (pos n) ≡ (c_string (take n (drop q e)), at e (q + n))
unfolding read_string_body set_position ◌+ℤ◌
read_string_body-at e q n h = ground arith

-- A text that a zero byte ends is read up to that byte, and the cursor ends behind it.
pub read_string-at :
    (e : List ℕ) (q : ℕ) (v rest : List ℕ)
    → q ≤ length e
    → NoZero v
    → drop q e ≡ v ++ (0 ∷ rest)
    → read_string (at e q) ≡ (v, at e (q + (length v + 1)))
unfolding read_string index_of_zero
read_string-at e q v rest h z s =
    let found : index_of_zero (at e q) ≡ pos (q + length v) =
      ap (λ t. elim t [ none ↦ negsuc 0 | some i ↦ pos (q + i) ])
        (ap find_zero s ∙ find_zero-append v rest z) in
    let long : q + (length v + 1) ≤ length e =
      omega (arith, ap length s, length-append v (0 ∷ rest), length-drop q e) in
    ap (read_string_body (at e q)) (string_size-found e q (length v) found)
    ∙ read_string_body-at e q (length v + 1) long
    ∙ ap (λ t. (c_string t, at e (q + (length v + 1))))
        (ap (take (length v + 1)) s ∙ take-suc-append v rest 0)
    ∙ ap (λ t. (t, at e (q + (length v + 1)))) (c_string-append v [] z)

-- A text that no zero byte ends is all that is left.
pub read_string-at_rest :
    (e : List ℕ) (q : ℕ)
    → q ≤ length e
    → NoZero (drop q e)
    → read_string (at e q) ≡ (drop q e, at e (length e))
unfolding read_string index_of_zero
read_string-at_rest e q h z =
    let missing : index_of_zero (at e q) ≡ negsuc 0 =
      ap (λ t. elim t [ none ↦ negsuc 0 | some i ↦ pos (q + i) ]) (find_zero-none (drop q e) z) in
    let stop : q + (length e - q) ≡ length e = omega arith in
    ap (read_string_body (at e q)) (string_size-missing e q h missing)
    ∙ read_string_body-at e q (length e - q) (omega arith)
    ∙ ap (λ t. (c_string t, at e (q + (length e - q))))
        (take_all (length e - q) (drop q e) (omega (arith, length-drop q e)))
    ∙ ap (λ t. (t, at e (q + (length e - q)))) (c_string_all (drop q e) z)
    ∙ ap (λ k. (drop q e, at e k)) stop
