-- ===== src/Utils/Stream/RoundTrip.antt =====
-- What DataStream writes of a byte array, a text or a GUID, it reads back (Utils/DataStream.h).
use threader.Prelude.{
  ℕ, ◌+◌, ◌-◌, ◌^◌, ◌≤◌, ◌<◌, ◌≡◌, ap, ◌∙◌, sym, true, false, some, List, [], ◌∷◌, ◌++◌, arith,
  if◌then◌else◌, length, drop, length-append, append_assoc,
}
use threader.Prelude.Int.{pos}
use threader.Prelude.Bytes.{le_bytes, length-le_bytes}
use threader.Utils.Stream.{
  set_position, write, overwrite, write_array, read_array, write_string, read_string, write_uuid,
  value_size_uuid,
}
use threader.Utils.Stream.Core.{at, set_position-at, write-at, length-overwrite}
use threader.Utils.Stream.Typed.{
  IsFiller, drop-overwrite, overwrite_end, write_array_lem, write-write,
}
use threader.Utils.Stream.Parse.{NoZero, read_array-at, read_string-at}

module _ (junk : ℕ → List ℕ) (filler : IsFiller junk) (d : List ℕ) (p : ℕ)
    (inside : p ≤ length d) where
  rewind :
      (v : List ℕ) (q : ℕ) → set_position (at (overwrite d p v) q) (pos p) ≡ at (overwrite d p v) p
  rewind v q = set_position-at (overwrite d p v) q p (omega (arith, length-overwrite d p v inside))

  -- A byte array of fewer than 2 ^ 32 bytes, written at a cursor within the array of the stream, is
  -- read back from there, and the cursor ends where the write left it.
  pub read_array-write_array :
      (v old : List ℕ)
      → length v < 2 ^ 32
      → ((write_array junk (at d p) (some v)).0 ≡ true)
        × (read_array (set_position (write_array junk (at d p) (some v)).1 (pos p)) old
            ≡ (true, v, (write_array junk (at d p) (some v)).1))
  read_array-write_array v old h =
      let block = le_bytes 4 (length v) ++ v in
      let w = write_array_lem junk filler d p inside v h in
      let stands : drop p (overwrite d p block)
          ≡ le_bytes 4 (length v) ++ (v ++ drop (p + length block) d) =
        drop-overwrite d p block inside
        ∙ append_assoc (le_bytes 4 (length v)) v (drop (p + length block) d) in
      (
        ap (λ t. t.0) w,
        ap (λ t. read_array (set_position t.1 (pos p)) old) w
            ∙ ap (λ t. read_array t old) (rewind block (p + 4 + length v))
            ∙ read_array-at (overwrite d p block) p v (drop (p + length block) d) old
                (omega (arith, length-overwrite d p block inside)) h stands
            ∙ ap (λ t. (true, v, t.1)) (sym w),
      )

  pub write_string_lem :
      (v : List ℕ)
      → write_string junk (at d p) v ≡ (true, at (overwrite d p (v ++ (0 ∷ []))) (p + length v + 1))
  unfolding write_string
  write_string_lem v =
      let w : write junk (at d p) v ≡ (true, at (overwrite d p v) (p + length v)) =
        write-at junk d p v (filler (p + length v - length d)) inside in
      ap (λ t. if t.0 then write junk t.1 (0 ∷ []) else (false, t.1)) w
      ∙ ap (λ t. write junk t.1 (0 ∷ [])) (sym w)
      ∙ write-write junk filler d p inside v (0 ∷ [])

  -- A text whose bytes hold no zero, written with its end mark at a cursor within the array of the
  -- stream, is read back from there, and the cursor ends where the write left it.
  pub read_string-write_string :
      (v : List ℕ)
      → NoZero v
      → ((write_string junk (at d p) v).0 ≡ true)
        × (read_string (set_position (write_string junk (at d p) v).1 (pos p))
            ≡ (v, (write_string junk (at d p) v).1))
  read_string-write_string v z =
      let block = v ++ (0 ∷ []) in
      let w = write_string_lem v in
      let stop : p + (length v + 1) ≡ p + length v + 1 = omega arith in
      (
        ap (λ t. t.0) w,
        ap (λ t. read_string (set_position t.1 (pos p))) w
            ∙ ap read_string (rewind block (p + length v + 1))
            ∙ read_string-at (overwrite d p block) p v (drop (p + length block) d)
                (omega (arith, length-overwrite d p block inside)) z
                (drop-overwrite d p block inside
                  ∙ append_assoc v (0 ∷ []) (drop (p + length block) d))
            ∙ ap (λ k. (v, at (overwrite d p block) k)) stop
            ∙ ap (λ t. (v, t.1)) (sym w),
      )

-- A GUID appended to an array takes 20 bytes, four more than `valueSize` reports for it.
pub write_uuid-size :
    (junk : ℕ → List ℕ) (d rfc4122 : List ℕ)
    → IsFiller junk
    → length rfc4122 ≡ 16
    → (write_uuid junk (at d (length d)) rfc4122).1
      ≡ at (d ++ (le_bytes 4 16 ++ rfc4122)) (length d + value_size_uuid + 4)
unfolding write_uuid value_size_uuid
write_uuid-size junk d rfc4122 filler h =
    let size : length (le_bytes 4 (length rfc4122) ++ rfc4122) ≡ 20 = omega (
      arith,
      length-append (le_bytes 4 (length rfc4122)) rfc4122,
      length-le_bytes 4 (length rfc4122),
    ) in
    let stop : length d + 4 + length rfc4122 ≡ length d + 16 + 4 = omega arith in
    ap (λ t. t.1) (write_array_lem junk filler d (length d) (omega arith) rfc4122 (omega arith))
    ∙ ap (λ t. at t (length d + 4 + length rfc4122))
        (overwrite_end d (le_bytes 4 (length rfc4122) ++ rfc4122))
    ∙ ap (λ k. at (d ++ (le_bytes 4 (length rfc4122) ++ rfc4122)) k) stop
    ∙ ap (λ k. at (d ++ (le_bytes 4 k ++ rfc4122)) (length d + 16 + 4)) h
