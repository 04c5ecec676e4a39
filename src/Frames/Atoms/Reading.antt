-- ===== src/Frames/Atoms/Reading.antt =====
-- What atoms read of bytes that stand at the cursor (Frames/DataAtoms.h).
use threader.Prelude.{
  ℕ, ◌+◌, ◌≤◌, ◌≡◌, refl, ap, ap₂, ◌∙◌, sym, true, false, none, some, List, [], ◌∷◌, ◌++◌, arith,
  length, take, drop, length-append, length-drop, append_assoc, take-append_self, drop-append_self,
  drop-drop, map, replicate,
}
use threader.Prelude.Bytes.{le_bytes, length-le_bytes}
use threader.Utils.Stream.Core.{at, read-at}
use threader.Utils.Stream.Parse.{read_array-at, read_string-at}
use threader.Frames.Atoms.{
  Kind, number, date, text, guid, byte_array, default_value, read_value, read_values,
}
use threader.Frames.Atoms.Encoding.{encode_value, encode_values, IsValue, AreValues, read_back}

-- The bytes at the cursor and what follows them.
pub standing-append :
    (e : List ℕ) (q : ℕ) (b c rest : List ℕ)
    → q ≤ length e
    → drop q e ≡ (b ++ c) ++ rest
    → (drop q e ≡ b ++ (c ++ rest))
      × (drop (q + length b) e ≡ c ++ rest)
      × (q + length b ≤ length e)
standing-append e q b c rest h s =
    let t : drop q e ≡ b ++ (c ++ rest) = s ∙ append_assoc b c rest in
    (
      t,
      sym (drop-drop (length b) q e)
          ∙ ap (drop (length b)) t
          ∙ drop-append_self (length b) b (c ++ rest) refl,
      omega (arith, ap length t, length-append b (c ++ rest), length-drop q e),
    )

read_value-at :
    (k : Kind) (e : List ℕ) (q : ℕ) (v rest : List ℕ)
    → IsValue k v
    → q ≤ length e
    → drop q e ≡ encode_value k v ++ rest
    → read_value k (at e q) (default_value k)
      ≡ (true, read_back k v, at e (q + length (encode_value k v)))
unfolding read_value encode_value read_back
read_value-at (number n) e q v rest h i s =
    let long : q + n ≤ length e =
      omega (arith, ap length s, length-append v rest, length-drop q e) in
    let front : take n (drop q e) ≡ v = ap (take n) s ∙ take-append_self n v rest (sym h.1) in
    let stop : q + n ≡ q + length v = omega arith in
    ap (λ r. elim r.0 [ none ↦ (false, default_value (number n), r.1) | some b ↦ (true, b, r.1) ])
      (read-at e q n h.0 long)
    ∙ ap₂ (λ b j. (true, b, at e j)) front stop
read_value-at (date c) e q v rest h i s =
    let w = c.to_double v in
    let long : q + 8 ≤ length e =
      omega (arith, h, ap length s, length-append w rest, length-drop q e) in
    let front : take 8 (drop q e) ≡ w = ap (take 8) s ∙ take-append_self 8 w rest (sym h) in
    let stop : q + 8 ≡ q + length w = omega (arith, h) in
    ap
      (λ r. elim r.0 [
        | none ↦ (false, c.of_double (replicate 8 0), r.1)
        | some b ↦ (true, c.of_double b, r.1)
      ])
      (read-at e q 8 (omega arith) long)
    ∙ ap₂ (λ b j. (true, c.of_double b, at e j)) front stop
read_value-at text e q v rest h i s =
    let stop : q + (length v + 1) ≡ q + length (v ++ (0 ∷ [])) =
      omega (arith, length-append v (0 ∷ [])) in
    rw (read_string-at e q v rest i h (s ∙ append_assoc v (0 ∷ []) rest))
      (ap (λ j. (true, v, at e j)) stop)
read_value-at guid e q v rest h i s =
    let stop : q + 4 + length v ≡ q + length (le_bytes 4 (length v) ++ v) =
      omega (arith, length-append (le_bytes 4 (length v)) v, length-le_bytes 4 (length v)) in
    rw
      (read_array-at e q v rest (default_value guid) i (omega arith)
        (s ∙ append_assoc (le_bytes 4 (length v)) v rest))
      (ap (λ j. (true, v, at e j)) stop)
read_value-at byte_array e q v rest h i s =
    let stop : q + 4 + length v ≡ q + length (le_bytes 4 (length v) ++ v) =
      omega (arith, length-append (le_bytes 4 (length v)) v, length-le_bytes 4 (length v)) in
    rw
      (read_array-at e q v rest (default_value byte_array) i h
        (s ∙ append_assoc (le_bytes 4 (length v)) v rest))
      (ap (λ j. (true, v, at e j)) stop)

pub read_values-at :
    (k : Kind) (vs : List (List ℕ)) (e : List ℕ) (q : ℕ) (rest : List ℕ)
    → AreValues k vs
    → q ≤ length e
    → drop q e ≡ encode_values k vs ++ rest
    → read_values k (length vs) (at e q)
      ≡ (true, map (read_back k) vs, at e (q + length (encode_values k vs)))
unfolding read_values encode_values
read_values-at k [] e q rest h i s = ap (λ j. (true, [], at e j)) (omega arith)
read_values-at k (v ∷ vs) e q rest h i s =
    let t = standing-append e q (encode_value k v) (encode_values k vs) rest i s in
    let stop : q + length (encode_value k v) + length (encode_values k vs)
        ≡ q + length (encode_value k v ++ encode_values k vs) =
      omega (arith, length-append (encode_value k v) (encode_values k vs)) in
    rw (read_value-at k e q v (encode_values k vs ++ rest) h.0 i t.0) (
      rw (read_values-at k vs e (q + length (encode_value k v)) rest h.1 t.2 t.1)
        (ap (λ j. (true, read_back k v ∷ map (read_back k) vs, at e j)) stop))
