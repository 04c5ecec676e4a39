-- ===== src/Frames/Packets/Sync.antt =====
-- The search for a header in DataFramesPacketFactory::tryExtractPacket
-- (Frames/DataFramesPackets.cpp).
use threader.Prelude.{
  ℕ, zero, suc, ◌<◌, ◌≡◌, refl, ◌∙◌, some, List, [], ◌∷◌, ltb, leb, arith, if◌then◌else◌, length,
  drop,
}
use threader.Utils.Stream.{c_string}
use threader.Frames.Packets.{
  read_header, starts_with, index_of, tag_literal, Search, short, found, find_header,
}

-- The C string in the source is empty, so it stands at the front of all bytes.
index_of-tag_literal : (d : List ℕ) → index_of (c_string tag_literal) d ≡ some 0
unfolding index_of c_string starts_with
index_of-tag_literal [] = refl
index_of-tag_literal (x ∷ xs) = refl

-- A search that looks at the third byte alone: it drops bytes until that is a packet type.
unfoldable pub synchronise : List ℕ → Search
synchronise [] = short []
synchronise (x ∷ xs) =
    let later = synchronise xs in
    if ltb (length xs) 12
    then short (x ∷ xs)
    else if leb 3 (read_header (x ∷ xs)).packet_type
    then later
    else found (read_header (x ∷ xs)) (x ∷ xs)

find_header-suc :
    (fuel : ℕ) (d : List ℕ)
    → find_header (suc fuel) d ≡ (
        if ltb (length d) 13
        then some (short d)
        else if leb 3 (read_header d).packet_type
        then find_header fuel (drop 1 d)
        else some (found (read_header d) d))
unfolding find_header
find_header-suc fuel d = rw (index_of-tag_literal d, find_header)

-- With more rounds than bytes the search of the source ends, and it is `synchronise`: the tag of the
-- packets plays no part, and the search never reports that no header was found.
pub find_header_lem :
    (fuel : ℕ) (d : List ℕ) → length d < fuel → find_header fuel d ≡ some (synchronise d)
unfolding synchronise
find_header_lem zero d h = absurd (omega arith)
find_header_lem (suc fuel) [] h = find_header-suc fuel []
find_header_lem (suc fuel) (x ∷ xs) h =
    find_header-suc fuel (x ∷ xs) ∙ ground (arith, find_header_lem fuel xs)
