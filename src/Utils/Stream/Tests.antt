-- ===== src/Utils/Stream/Tests.antt =====
-- Runs of the theorems on DataStream at concrete arrays.
use threader.Prelude.{ℕ, ◌≡◌, true, some, List, [], ◌∷◌, arith, replicate, length-replicate}
use threader.Prelude.Int.{pos, negsuc}
use threader.Utils.Stream.{new, set_position, write_string, read_string}
use threader.Utils.Stream.Core.{at}
use threader.Utils.Stream.Typed.{IsFiller}
use threader.Utils.Stream.RoundTrip.{read_string-write_string}
use threader.Utils.Stream.Safety.{IsValid, Call, seek, put, get, run, run-new_stream-IsValid}

abbrev zeros : ℕ → List ℕ
zeros n = replicate n 0

zeros-IsFiller : IsFiller zeros
zeros-IsFiller n = length-replicate n 0

abbrev four : List ℕ
four = 9 ∷ 8 ∷ 7 ∷ 6 ∷ []

abbrev text : List ℕ
text = 0x68 ∷ 0x69 ∷ []

abbrev rfc4122 : List ℕ
rfc4122 = replicate 16 5

abbrev calls : List Call
calls = put text ∷ seek (pos 9) ∷ get 3 ∷ seek (negsuc 4) ∷ []

read_string-write_string_example :
    ((write_string zeros (at four 3) text).0 ≡ true)
    × (read_string (set_position (write_string zeros (at four 3) text).1 (pos 3))
        ≡ (text, (write_string zeros (at four 3) text).1))
read_string-write_string_example =
    read_string-write_string zeros zeros-IsFiller four 3 (omega arith) text
      (omega arith, (omega arith, tt))

run-new_stream-IsValid_example : IsValid (run zeros (new (some four)) calls)
run-new_stream-IsValid_example = run-new_stream-IsValid zeros (some four) calls
