-- ===== src/Threads/Lines/Pieces.antt =====
-- Lines that arrive in pieces, and lines that a packet writes (Threads/PacketFactoryAsciiLines.cpp).
use threader.Prelude.{
  ℕ, ◌+◌, ◌-◌, ◌≡◌, refl, ap, ap₂, ◌∙◌, sym, true, false, Option, none, some, List, [], ◌∷◌, ◌++◌,
  map, arith, inl, inr, if◌then◌else◌, length, append-nil, append_assoc, Bool-cases,
}
use threader.Threads.Lines.{is_crlf, is_empty, crlf, lines_text, write_lines, try_extract_packet}
use threader.Utils.Stream.{write_text}
use threader.Utils.Stream.Core.{at, write-at}
use threader.Utils.Stream.Typed.{IsFiller, overwrite_end}
use threader.Threads.Lines.Scan.{scan, try_extract_packet-scan}

-- No character of the text ends a line.
abbrev pub IsLine : List ℕ → Type 0
IsLine [] = Unit {0}
IsLine (c ∷ cs) = (is_crlf c ≡ false) × IsLine cs

append-IsLine : (xs : List ℕ) (c : ℕ) → IsLine xs → is_crlf c ≡ false → IsLine (xs ++ (c ∷ []))
append-IsLine [] c h k = (k, tt)
append-IsLine (x ∷ xs) c h k = (h.0, append-IsLine xs c h.1 k)

scan-IsLine : (line d : List ℕ) → IsLine line → IsLine (scan line d).1
unfolding scan
scan-IsLine line [] h = h
scan-IsLine line (c ∷ d) h = elim (Bool-cases (is_crlf c)) [
  | inl e ↦ rw e (scan-IsLine [] d tt)
  | inr e ↦ rw e (scan-IsLine (line ++ (c ∷ [])) d (append-IsLine line c h e))
]

-- A part of a line only lengthens the line.
scan-line : (line r d : List ℕ) → IsLine r → scan line (r ++ d) ≡ scan (line ++ r) d
unfolding scan
scan-line line [] d h = ap (λ l. scan l d) (sym (append-nil line))
scan-line line (c ∷ r) d h =
    rw (h.0)
      (scan-line (line ++ (c ∷ [])) r d h.1 ∙ ap (λ l. scan l d) (append_assoc line (c ∷ []) r))

scan-append :
    (line d e : List ℕ)
    → ((scan line (d ++ e)).0 ≡ (scan line d).0 ++ (scan (scan line d).1 e).0)
      × ((scan line (d ++ e)).1 ≡ (scan (scan line d).1 e).1)
unfolding scan
scan-append line [] e = (refl, refl)
scan-append line (c ∷ d) e = ground (arith, scan-append [] d e, scan-append (line ++ (c ∷ [])) d e)

abbrev pub lines_of : Option (List (List ℕ)) → List (List ℕ)
lines_of none = []
lines_of (some lines) = lines

lines_of_if :
    (lines : List (List ℕ)) → lines_of (if is_empty lines then none else some lines) ≡ lines
lines_of_if [] = refl
lines_of_if (l ∷ lines) = refl

lines_of-scan : (d : List ℕ) → lines_of (try_extract_packet d).0 ≡ (scan [] d).0
lines_of-scan d = ap (λ r. lines_of r.0) (try_extract_packet-scan d) ∙ lines_of_if (scan [] d).0

rest-scan : (d : List ℕ) → (try_extract_packet d).1 ≡ (scan [] d).1
rest-scan d = ap (λ r. r.1) (try_extract_packet-scan d)

-- Bytes that arrive in two pieces, each taken through the factory behind what it left of the one
-- before, give the same lines in the same order, and leave the same bytes, as if they came at once.
pub try_extract_packet-append :
    (d e : List ℕ)
    → let (first, left) = try_extract_packet d in
      let (second, left2) = try_extract_packet (left ++ e) in
      let (whole, left3) = try_extract_packet (d ++ e) in
      (lines_of whole ≡ lines_of first ++ lines_of second) × (left3 ≡ left2)
try_extract_packet-append d e =
    let s = scan-append [] d e in
    let back : scan [] ((try_extract_packet d).1 ++ e) ≡ scan (scan [] d).1 e =
      ap (λ t. scan [] (t ++ e)) (rest-scan d)
      ∙ scan-line [] (scan [] d).1 e (scan-IsLine [] d tt) in
    (
      lines_of-scan (d ++ e)
          ∙ s.0
          ∙ ap₂ (λ xs ys. xs ++ ys) (sym (lines_of-scan d))
              (sym (lines_of-scan ((try_extract_packet d).1 ++ e) ∙ ap (λ t. t.0) back)),
      rest-scan (d ++ e)
          ∙ s.1
          ∙ sym (rest-scan ((try_extract_packet d).1 ++ e) ∙ ap (λ t. t.1) back),
    )

abbrev pub AreLines : List (List ℕ) → Type 0
AreLines [] = Unit {0}
AreLines (l ∷ lines) = IsLine l × (is_empty l ≡ false) × AreLines lines

scan-lines_text :
    (lines : List (List ℕ)) (rest : List ℕ)
    → AreLines lines
    → IsLine rest
    → scan [] (lines_text lines ++ rest) ≡ (lines, rest)
unfolding scan lines_text
scan-lines_text [] rest h k = ap (scan []) (sym (append-nil rest)) ∙ scan-line [] rest [] k
scan-lines_text (l ∷ lines) rest h k =
    let text = lines_text lines ++ rest in
    let rest_of : scan l (13 ∷ 10 ∷ text) ≡ (l ∷ (scan [] text).0, (scan [] text).1) =
      rw (h.1) refl in
    ap (scan []) (append_assoc l (crlf ++ lines_text lines) rest)
    ∙ scan-line [] l (crlf ++ text) h.0
    ∙ rest_of
    ∙ ap (λ r. (l ∷ r.0, r.1)) (scan-lines_text lines rest h.2 k)

-- What the codec relies on here: the ends of lines are the bytes of their numbers, and no other code
-- unit becomes one of them.
abbrev pub KeepsLines : (ℕ → ℕ) → Type 0
KeepsLines encode = (encode 13 ≡ 13) × (encode 10 ≡ 10) × ((c : ℕ) → is_crlf (encode c) ≡ is_crlf c)

map-IsLine : (encode : ℕ → ℕ) (l : List ℕ) → KeepsLines encode → IsLine l → IsLine (map encode l)
map-IsLine encode [] k h = tt
map-IsLine encode (c ∷ l) k (h, hs) = (k.2 c ∙ h, map-IsLine encode l k hs)

map-AreLines :
    (encode : ℕ → ℕ) (lines : List (List ℕ))
    → KeepsLines encode
    → AreLines lines
    → AreLines (map (map encode) lines)
map-AreLines encode [] k h = tt
map-AreLines encode ([] ∷ lines) k (h, n, hs) = absurd (cc)
map-AreLines encode ((c ∷ l) ∷ lines) k (h, n, hs) =
    (map-IsLine encode (c ∷ l) k h, refl, map-AreLines encode lines k hs)

map-append :
    (encode : ℕ → ℕ) (xs ys : List ℕ) → map encode (xs ++ ys) ≡ map encode xs ++ map encode ys
map-append encode [] ys = refl
map-append encode (x ∷ xs) ys = ap (λ t. encode x ∷ t) (map-append encode xs ys)

map-lines_text :
    (encode : ℕ → ℕ) (lines : List (List ℕ))
    → KeepsLines encode
    → map encode (lines_text lines) ≡ lines_text (map (map encode) lines)
unfolding lines_text
map-lines_text encode [] k = refl
map-lines_text encode (l ∷ lines) k =
    map-append encode l (crlf ++ lines_text lines)
    ∙ ap (λ t. map encode l ++ t)
        (ap₂ (λ c t. c ∷ t) k.0 (ap₂ (λ c t. c ∷ t) k.1 (map-lines_text encode lines k)))

map-is_empty :
    (encode : ℕ → ℕ) (lines : List (List ℕ))
    → is_empty lines ≡ false
    → is_empty (map (map encode) lines) ≡ false
map-is_empty encode [] h = absurd (cc)
map-is_empty encode (l ∷ lines) h = refl

-- What a packet of at least one line, none empty and none with CR or LF in it, writes on an empty
-- stream is taken out as as many lines, in order, and the beginning of a line that follows is left. Each
-- code unit comes out as the number of the byte that it was encoded to: a line comes out as it was where
-- the encoding keeps its characters, as Windows-1251 does with ASCII, and as another text where it does
-- not, as with Cyrillic letters.
pub try_extract_packet-write_lines :
    (junk : ℕ → List ℕ) (encode : ℕ → ℕ) (lines : List (List ℕ)) (rest : List ℕ)
    → IsFiller junk
    → KeepsLines encode
    → AreLines lines
    → is_empty lines ≡ false
    → IsLine rest
    → (out : List ℕ) × (write_lines junk encode (at [] 0) lines ≡ (true, at out (length out)))
      × (try_extract_packet (out ++ rest) ≡ (some (map (map encode) lines), rest))
unfolding write_lines write_text
try_extract_packet-write_lines junk encode lines rest f c h n k =
    let out = map encode (lines_text lines) in
    let coded = map (map encode) lines in
    (
      out,
      write-at junk [] 0 out (f (0 + length out - 0)) (omega arith)
          ∙ ap₂ (λ b i. (true, at b i)) (overwrite_end [] out) (omega arith),
      ap (λ t. try_extract_packet (t ++ rest)) (map-lines_text encode lines c)
          ∙ try_extract_packet-scan (lines_text coded ++ rest)
          ∙ ap (λ r. (if is_empty r.0 then none else some r.0, r.1))
              (scan-lines_text coded rest (map-AreLines encode lines c h) k)
          ∙ rw (map-is_empty encode lines n) refl,
    )
