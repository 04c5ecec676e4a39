-- ===== src/Threads/Lines.antt =====
-- Threads/PacketFactoryAsciiLines.h and Threads/PacketFactoryAsciiLines.cpp: packets of lines that
-- end with CR and LF. A text is the list of the UTF-16 code units of a QString. Arguments are the byte
-- that the codec Windows-1251 makes of a code unit, what text `QString(QByteArray)` decodes from bytes,
-- and how `QString::split` cuts a text.
pub mod Scan
pub mod Pieces
mod Tests
use threader.Prelude.{
  ℕ, zero, suc, ◌+◌, Bool, true, false, ◌||◌, Option, none, some, List, [], ◌∷◌, ◌++◌, ◌==◌, map,
  if◌then◌else◌, length, drop,
}
use threader.Utils.Stream.{Stream, write_text}

abbrev pub crlf : List ℕ
crlf = 13 ∷ 10 ∷ []

-- `CRLF.indexOf(currentChar) < 0` fails
abbrev pub is_crlf : ℕ → Bool
is_crlf c = c == 13 || c == 10

abbrev pub is_empty {ℓ} : {A : Type ℓ} → List A → Bool
is_empty [] = true
is_empty (x ∷ xs) = false

-- `PacketAsciiLines::write`: the text of all lines, then the bytes that `writeString` encodes it to
unfoldable pub lines_text : List (List ℕ) → List ℕ
lines_text [] = []
lines_text (line ∷ lines) = line ++ (crlf ++ lines_text lines)

unfoldable pub write_lines : (ℕ → List ℕ) → (ℕ → ℕ) → Stream → List (List ℕ) → Bool × Stream
write_lines junk encode s lines = write_text junk s (map encode (lines_text lines))

-- The state of the loop of `tryExtractPacket`, which appends each byte as the code unit of its number
-- (Latin-1); `delete_to` is `none` for -1.
pub record Conveyor : Type 0 where
  pub position : ℕ
  pub current_line : List ℕ
  pub lines : List (List ℕ)
  pub delete_to : Option ℕ

unfoldable pub convey : Conveyor → ℕ → Conveyor
convey v c =
    if is_crlf c
    then record {
      position = v.position + 1;
      current_line = [];
      lines = if is_empty v.current_line then v.lines else v.lines ++ (v.current_line ∷ []);
      delete_to = some v.position;
    }
    else record v { position = v.position + 1; current_line = v.current_line ++ (c ∷ []) }

unfoldable pub convey_all : Conveyor → List ℕ → Conveyor
convey_all v [] = v
convey_all v (c ∷ cs) = convey_all (convey v c) cs

abbrev pub idle_conveyor : Conveyor
idle_conveyor = record { position = 0; current_line = []; lines = []; delete_to = none }

abbrev pub remove_to : Option ℕ → List ℕ → List ℕ
remove_to none d = d
remove_to (some p) d = drop (p + 1) d

-- `tryExtractPacket`: the lines, `none` for no packet, and the bytes that it leaves.
unfoldable pub try_extract_packet : List ℕ → Option (List (List ℕ)) × List ℕ
try_extract_packet d =
    let v = convey_all idle_conveyor d in
    if is_empty d
    then (none, d)
    else (if is_empty v.lines then none else some v.lines, remove_to v.delete_to d)

-- `buildPacket`: the text of the bytes, which `decode` takes as UTF-8; `split` cuts a text at each place
-- where the second one stands.
unfoldable pub build_packet :
    (List ℕ → List ℕ) → (List ℕ → List ℕ → List (List ℕ)) → List ℕ → List (List ℕ)
build_packet decode split received = split (decode received) crlf
