-- ===== src/Utils/IpMask.antt =====
-- Utils/IpMask.h and Utils/IpMask.cpp: lists of allowed and of prohibited IPv4 addresses, with `*`
-- for any byte. A text is the list of its characters. How `QString::split` cuts a text and what
-- number `QString::toInt` reads, if any, are arguments. An address is its four bytes in the order in
-- which they are written; a byte that a failed reading leaves unset is not looked at.
pub mod Match
pub mod Octets
pub mod Check
mod Tests
use threader.Prelude.{
  ℕ, zero, suc, ◌+◌, ◌-◌, ◌*◌, ◌≡◌, bit_and, bit_or, Bool, true, false, ◌&&◌, ◌||◌, not, Option,
  none, some, List, [], ◌∷◌, ◌++◌, ◌==◌, ltb, leb, if◌then◌else◌, length, take, drop, replicate,
}
use threader.Prelude.Int.{ℤ, pos, negsuc}

-- One byte of a `BinarryIpAddress`: its `cardinals` and its `wildCards` entry.
pub record Octet : Type 0 where
  pub byte : ℕ
  pub wild : Bool

-- An address, or an entry of a mask list.
pub record Address : Type 0 where
  pub first : Octet
  pub second : Octet
  pub third : Octet
  pub fourth : Octet

pub record IpMask : Type 0 where
  pub prohibited_mask : List Address
  pub allowed_mask : List Address
  pub mask_parsed : Bool

abbrev pub any_octet : Octet
any_octet = record { byte = 0xff; wild = true }

abbrev pub any_address : Address
any_address = record {
  first = any_octet;
  second = any_octet;
  third = any_octet;
  fourth = any_octet;
}

-- The entry for a list without any: 127.*.*.*
abbrev pub local_addresses : Address
local_addresses = record any_address { first = record { byte = 127; wild = false } }

-- `count`
unfoldable pub count : IpMask → ℕ → ℤ
count m index =
    if index == 0
    then pos (length m.prohibited_mask)
    else if index == 1
    then pos (length m.allowed_mask)
    else negsuc 0

-- `values & values`, byte by byte, gives the first address back.
unfoldable pub covers : Address → Address → Bool
covers a m =
    bit_and a.first.byte m.first.byte == a.first.byte
    && (bit_and a.second.byte m.second.byte == a.second.byte
        && (bit_and a.third.byte m.third.byte == a.third.byte
            && bit_and a.fourth.byte m.fourth.byte == a.fourth.byte))

-- The test on one byte in the loops of `checkIpAddress`: whether it sets `notMatch`.
unfoldable pub differs : Octet → Octet → Bool
differs a m = not (bit_or a.byte m.byte == a.byte) && not m.wild

-- Whether an entry of a list matches.
unfoldable pub matches : Address → Address → Bool
matches a m =
    if covers a m
    then not (
        differs a.first m.first
        || (differs a.second m.second || (differs a.third m.third || differs a.fourth m.fourth)))
    else false

-- The loops of `checkIpAddress`.
unfoldable pub any_matches : Address → List Address → Bool
any_matches a [] = false
any_matches a (m ∷ ms) = let rest = any_matches a ms in if matches a m then true else rest

-- The position of a character from `start` on.
unfoldable pub find_char : ℕ → List ℕ → Option ℕ
find_char c [] = none
find_char c (x ∷ xs) =
    if x == c then some 0 else elim (find_char c xs) [ none ↦ none | some i ↦ some (i + 1) ]

-- `'*'` stands first; an empty text has no such character.
abbrev pub starts_wild : List ℕ → Bool
starts_wild [] = false
starts_wild (x ∷ xs) = x == 0x2a

-- What the number of a byte makes of the byte.
unfoldable pub octet_of : Option ℤ → Option Octet
octet_of none = none
octet_of (some (negsuc n)) = none
octet_of (some (pos n)) = if leb n 255 then some (record { byte = n; wild = false }) else none

-- The byte that a dot at `p` ends.
unfoldable pub octet_at : (List ℕ → Option ℤ) → Bool → List ℕ → ℕ → Option Octet
octet_at to_int use_match text p =
    if use_match && starts_wild text then some any_octet else octet_of (to_int (take p text))

-- The loop of `strToBin` for `n` more bytes on the rest of the text; `to_int` reads a number. What
-- follows a fourth dot is not looked at.
unfoldable pub octets : (List ℕ → Option ℤ) → Bool → ℕ → List ℕ → Option (List Octet)
octets to_int use_match zero text = some []
octets to_int use_match (suc n) text = elim (find_char 0x2e text) [
  | none ↦
      if use_match && starts_wild text
      then some (replicate (suc n) any_octet)
      else if n == 0
      then elim (octet_of (to_int text)) [ none ↦ none | some o ↦ some (o ∷ []) ]
      else none
  | some p ↦ elim (octet_at to_int use_match text p) [
    | none ↦ none
    | some o ↦ elim (octets to_int use_match n (drop (p + 1) text)) [
      | none ↦ none
      | some os ↦ some (o ∷ os)
    ]
  ]
]

abbrev pub address_of : List Octet → Option Address
address_of (a ∷ b ∷ c ∷ d ∷ []) = some (record { first = a; second = b; third = c; fourth = d })
address_of _ = none

-- `strToBin`
unfoldable pub str_to_bin : (List ℕ → Option ℤ) → List ℕ → Bool → Option Address
str_to_bin to_int text use_match = elim (octets to_int use_match 4 text) [
  | none ↦ none
  | some os ↦ address_of os
]

-- What the output parameters `outString` and `errorString` say.
pub data Fault : Type 0 where
  invalid_ip_address bad_prohibited_format bad_allowed_format all_prohibited : Fault
  table_not_created : Fault

-- A line of the mask that starts with `!` prohibits.
unfoldable pub parse_line : (List ℕ → Option ℤ) → IpMask → List ℕ → Option Fault × IpMask
parse_line to_int m [] = elim (str_to_bin to_int [] true) [
  | none ↦ (some bad_allowed_format, m)
  | some a ↦ (none, record m { allowed_mask = m.allowed_mask ++ (a ∷ []) })
]
parse_line to_int m (c ∷ line) =
    if c == 0x21
    then elim (str_to_bin to_int line true) [
      | none ↦ (some bad_prohibited_format, m)
      | some a ↦ (none, record m { prohibited_mask = m.prohibited_mask ++ (a ∷ []) })
    ]
    else elim (str_to_bin to_int (c ∷ line) true) [
      | none ↦ (some bad_allowed_format, m)
      | some a ↦ (none, record m { allowed_mask = m.allowed_mask ++ (a ∷ []) })
    ]

-- The loop of `parseMask`. `split` cuts a text at a delimiter and drops empty parts.
unfoldable pub parse_lines :
    (List ℕ → List ℕ → List (List ℕ))
    → (List ℕ → Option ℤ)
    → IpMask
    → List (List ℕ)
    → Option Fault × IpMask
parse_lines split to_int m [] = (none, m)
parse_lines split to_int m (line ∷ lines) =
    let r = parse_line to_int m line in
    if ltb 4 (length (split line (0x2e ∷ [])))
    then (some invalid_ip_address, m)
    else elim r.0 [ none ↦ parse_lines split to_int r.1 lines | some f ↦ (some f, r.1) ]

-- `operator ==` compares the first four bytes of the structure, which are `wildCards`.
abbrev pub same_wild : Bool → Bool → Bool
same_wild true b = b
same_wild false b = not b

unfoldable pub same_address : Address → Address → Bool
same_address a b =
    same_wild a.first.wild b.first.wild
    && (same_wild a.second.wild b.second.wild
        && (same_wild a.third.wild b.third.wild && same_wild a.fourth.wild b.fourth.wild))

unfoldable pub contains : List Address → Address → Bool
contains [] a = false
contains (m ∷ ms) a = let rest = contains ms a in if same_address m a then true else rest

-- The end of `parseMask`, once all lines are read.
unfoldable pub finish_mask : IpMask → Option Fault × IpMask
finish_mask m =
    let m1 : IpMask =
      if length m.allowed_mask == 0 then record m { allowed_mask = local_addresses ∷ [] } else m in
    if contains m1.prohibited_mask any_address
    then (some all_prohibited, m1)
    else (none, record m1 { mask_parsed = true })

-- `parseMask`
unfoldable pub parse_mask :
    (List ℕ → List ℕ → List (List ℕ))
    → (List ℕ → Option ℤ)
    → IpMask
    → List ℕ
    → List ℕ
    → Option Fault × IpMask
parse_mask split to_int m mask_value delimiters =
    let r = parse_lines split to_int m (split mask_value delimiters) in
    elim r.0 [ none ↦ finish_mask r.1 | some f ↦ (some f, r.1) ]

-- The constructor.
unfoldable pub new :
    (List ℕ → List ℕ → List (List ℕ)) → (List ℕ → Option ℤ) → List ℕ → List ℕ → IpMask
new split to_int mask_value delimiters =
    (parse_mask split to_int
      (record { prohibited_mask = []; allowed_mask = []; mask_parsed = false }) mask_value
      delimiters).1

-- `checkIpAddress`
unfoldable pub check_ip_address : (List ℕ → Option ℤ) → IpMask → List ℕ → Bool × Option Fault
check_ip_address to_int m text = elim (str_to_bin to_int text false) [
  | none ↦ (false, some (if m.mask_parsed then invalid_ip_address else table_not_created))
  | some a ↦
      if m.mask_parsed
      then (if any_matches a m.prohibited_mask then false else any_matches a m.allowed_mask, none)
      else (false, some table_not_created)
]
