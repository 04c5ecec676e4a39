-- ===== src/Utils/IpMask/Tests.antt =====
-- A run of the theorem on IpMask at a concrete mask: `10.*` allowed, `10.0.0.9` prohibited.
use threader.Prelude.{
  ℕ, ◌-◌, ◌*◌, ◌+◌, ◌≡◌, true, Option, none, some, List, [], ◌∷◌, ◌++◌, ◌==◌, if◌then◌else◌,
}
use threader.Prelude.Int.{ℤ, pos}
use threader.Utils.IpMask.{
  new, check_ip_address, parse_mask, parse_lines, parse_line, finish_mask, contains, same_address,
  str_to_bin, octets, octet_at, octet_of, find_char,
}
use threader.Utils.IpMask.Match.{allows_address}
use threader.Utils.IpMask.Check.{check_ip_address-new}

-- The text cut at each delimiter, less its empty parts; `part` is the one that is read.
abbrev cut : ℕ → List ℕ → List ℕ → List (List ℕ)
cut c [] [] = []
cut c (p ∷ part) [] = (p ∷ part) ∷ []
cut c [] (x ∷ xs) =
    let rest = cut c [] xs in let more = cut c (x ∷ []) xs in if x == c then rest else more
cut c (p ∷ part) (x ∷ xs) =
    let rest = cut c [] xs in
    let more = cut c ((p ∷ part) ++ (x ∷ [])) xs in if x == c then (p ∷ part) ∷ rest else more

abbrev split : List ℕ → List ℕ → List (List ℕ)
split text [] = text ∷ []
split text (c ∷ cs) = cut c [] text

-- One digit or two.
abbrev to_int : List ℕ → Option ℤ
to_int (x ∷ []) = some (pos (x - 0x30))
to_int (x ∷ y ∷ []) = some (pos ((x - 0x30) * 10 + (y - 0x30)))
to_int _ = none

-- 10.* !10.0.0.9
abbrev mask : List ℕ
mask =
    0x31 ∷ 0x30 ∷ 0x2e ∷ 0x2a ∷ 0x20 ∷ 0x21 ∷ 0x31 ∷ 0x30 ∷ 0x2e ∷ 0x30 ∷ 0x2e ∷ 0x30 ∷ 0x2e ∷ 0x39
    ∷ []

-- 10.0.0.7
abbrev address : List ℕ
address = 0x31 ∷ 0x30 ∷ 0x2e ∷ 0x30 ∷ 0x2e ∷ 0x30 ∷ 0x2e ∷ 0x37 ∷ []

check_ip_address-new_example :
    (check_ip_address to_int (new split to_int mask (0x20 ∷ [])) address).0 ≡ true
unfolding new parse_mask parse_lines parse_line finish_mask contains same_address str_to_bin octets
    octet_at octet_of find_char allows_address
check_ip_address-new_example = check_ip_address-new split to_int mask (0x20 ∷ []) address
