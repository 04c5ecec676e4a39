-- ===== src/Threads/Lines/Tests.antt =====
-- Runs of the theorems on PacketFactoryAsciiLines at concrete lines.
use threader.Prelude.{
  ℕ, ◌≡◌, refl, true, some, List, [], ◌∷◌, ◌++◌, length, replicate, length-replicate, ltb, leb,
  ◌&&◌, ◌-◌, if◌then◌else◌, arith,
}
use threader.Utils.Stream.Core.{at}
use threader.Utils.Stream.Typed.{IsFiller}
use threader.Threads.Lines.{write_lines, try_extract_packet}
use threader.Threads.Lines.Pieces.{
  lines_of, KeepsLines, try_extract_packet-append, try_extract_packet-write_lines,
}

abbrev zeros : ℕ → List ℕ
zeros n = replicate n 0

zeros-IsFiller : IsFiller zeros
zeros-IsFiller n = length-replicate n 0

-- "ab", CR, LF, "c"
abbrev received : List ℕ
received = 0x61 ∷ 0x62 ∷ 13 ∷ 10 ∷ 0x63 ∷ []

try_extract_packet-append_example :
    let (first, left) = try_extract_packet (0x61 ∷ []) in
    let (second, left2) = try_extract_packet (left ++ received) in
    let (whole, left3) = try_extract_packet (0x61 ∷ received) in
    (lines_of whole ≡ lines_of first ++ lines_of second) × (left3 ≡ left2)
try_extract_packet-append_example = try_extract_packet-append (0x61 ∷ []) received

-- Windows-1251 on ASCII and the letters from 0x410 to 0x44F, and `?` for any other code unit.
abbrev encode : ℕ → ℕ
encode c = if ltb c 0x80 then c else if leb 0x410 c && leb c 0x44f then c - 0x350 else 0x3f

encode-KeepsLines : KeepsLines encode
encode-KeepsLines = (refl, refl, λ c. ground arith)

-- The letter 0x41F and "a", and a line of one character.
abbrev cyrillic_lines : List (List ℕ)
cyrillic_lines = (0x41f ∷ 0x61 ∷ []) ∷ (3 ∷ []) ∷ []

try_extract_packet-write_lines_example :
    (out : List ℕ) × (write_lines zeros encode (at [] 0) cyrillic_lines
      ≡ (true, at out (length out)))
    × (try_extract_packet (out ++ (4 ∷ [])) ≡ (some ((0xcf ∷ 0x61 ∷ []) ∷ (3 ∷ []) ∷ []), 4 ∷ []))
try_extract_packet-write_lines_example =
    try_extract_packet-write_lines zeros encode cyrillic_lines (4 ∷ []) zeros-IsFiller
      encode-KeepsLines ((refl, (refl, tt)), refl, ((refl, tt), refl, tt)) refl (refl, tt)
