-- ===== src/Threads/Lines/Scan.antt =====
-- PacketFactoryAsciiLines::tryExtractPacket against a description by recursion
-- (Threads/PacketFactoryAsciiLines.cpp).
use threader.Prelude.{
  ℕ, ◌+◌, ◌<◌, ◌≡◌, refl, ap, ap₂, ◌∙◌, sym, Option, none, some, List, [], ◌∷◌, ◌++◌, arith, inl,
  inr, if◌then◌else◌, length, length-append, append-nil, append_assoc, drop-append, drop_all,
  Bool-cases,
}
use threader.Threads.Lines.{
  Conveyor, is_crlf, is_empty, convey, convey_all, idle_conveyor, remove_to, try_extract_packet,
}

-- The lines that end in `d` and what is left behind the last end of a line, when `line` has been
-- read of the first one. An empty line is no line.
unfoldable pub scan : List ℕ → List ℕ → List (List ℕ) × List ℕ
scan line [] = ([], line)
scan line (c ∷ cs) =
    let ended = scan [] cs in
    let longer = scan (line ++ (c ∷ [])) cs in
    if is_crlf c then (if is_empty line then ended.0 else line ∷ ended.0, ended.1) else longer

-- The conveyor has read `front`.
record Conveys (front : List ℕ) (v : Conveyor) : Type 0 where
  at_end : v.position ≡ length front
  kept : remove_to v.delete_to front ≡ v.current_line
  before : (p : ℕ) → v.delete_to ≡ some p → p < length front

remove_to-append :
    (t : Option ℕ) (front : List ℕ) (c : ℕ)
    → ((p : ℕ) → t ≡ some p → p < length front)
    → remove_to t (front ++ (c ∷ [])) ≡ remove_to t front ++ (c ∷ [])
remove_to-append none front c h = refl
remove_to-append (some p) front c h = drop-append (p + 1) front (c ∷ []) (omega (arith, h p refl))

some-eq : {a b : ℕ} → some a ≡ some b → a ≡ b
some-eq {a} e = ap (λ o. elim o [ none ↦ a | some x ↦ x ]) e

convey-Conveys :
    (front : List ℕ) (v : Conveyor) (c : ℕ)
    → Conveys front v
    → Conveys (front ++ (c ∷ [])) (convey v c)
unfolding convey
convey-Conveys front v c h =
    let len = length-append front (c ∷ []) in
    elim (Bool-cases (is_crlf c)) [
      | inl e ↦ rw e (record {
        at_end = omega (arith, len, h.at_end);
        kept = drop_all (v.position + 1) (front ++ (c ∷ [])) (omega (arith, len, h.at_end));
        before = λ p k. omega (arith, len, h.at_end, some-eq k);
      })
      | inr e ↦ rw e (record {
        at_end = omega (arith, len, h.at_end);
        kept = remove_to-append v.delete_to front c h.before ∙ ap (λ t. t ++ (c ∷ [])) h.kept;
        before = λ p k. omega (arith, len, h.before p k);
      })
    ]

convey_all-Conveys :
    (front d : List ℕ) (v : Conveyor) → Conveys front v → Conveys (front ++ d) (convey_all v d)
unfolding convey_all
convey_all-Conveys front [] v h = rw (append-nil front) h
convey_all-Conveys front (c ∷ d) v h =
    rw (← append_assoc front (c ∷ []) d)
      (convey_all-Conveys (front ++ (c ∷ [])) d (convey v c) (convey-Conveys front v c h))

convey_all-scan :
    (v : Conveyor) (d : List ℕ)
    → ((convey_all v d).lines ≡ v.lines ++ (scan v.current_line d).0)
      × ((convey_all v d).current_line ≡ (scan v.current_line d).1)
unfolding convey_all scan convey
convey_all-scan v [] = (sym (append-nil v.lines), refl)
convey_all-scan v (c ∷ d) = ground (
  arith,
  convey_all-scan (convey v c) d,
  append_assoc v.lines (v.current_line ∷ []) (scan [] d).0,
)

-- `tryExtractPacket` takes out exactly the lines that end in the received bytes, those of at least
-- one character, and leaves the bytes behind the last end of a line.
pub try_extract_packet-scan :
    (d : List ℕ)
    → try_extract_packet d
      ≡ (if is_empty (scan [] d).0 then none else some (scan [] d).0, (scan [] d).1)
unfolding try_extract_packet scan
try_extract_packet-scan [] = refl
try_extract_packet-scan (x ∷ d) =
    let s = convey_all-scan idle_conveyor (x ∷ d) in
    let none_read : Conveys [] idle_conveyor = record {
      at_end = refl;
      kept = refl;
      before = λ p k. absurd (cc);
    } in
    let k = convey_all-Conveys [] (x ∷ d) idle_conveyor none_read in
    ap₂ (λ lines rest. (if is_empty lines then none else some lines, rest)) s.0 (k.kept ∙ s.1)
