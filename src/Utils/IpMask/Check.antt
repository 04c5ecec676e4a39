-- ===== src/Utils/IpMask/Check.antt =====
-- IpMask::checkIpAddress on the masks that parseMask makes (Utils/IpMask.cpp).
use threader.Prelude.{
  ℕ, ◌≡◌, Bool, true, false, ◌&&◌, ◌||◌, not, Option, none, some, List, [], ◌∷◌, ◌++◌, ◌==◌, ltb,
  if◌then◌else◌, if_either, length, refl, subst, arith, inl, inr, Option-cases,
}
use threader.Prelude.Int.{ℤ}
use threader.Utils.IpMask.{
  IpMask, Address, Fault, any_address, local_addresses, any_matches, str_to_bin, parse_line,
  parse_lines, contains, finish_mask, parse_mask, new, check_ip_address,
}
use threader.Utils.IpMask.Match.{IsAddress, allows_address, matches-allows_address}
use threader.Utils.IpMask.Octets.{
  Holds, AreAddresses, append-AreAddresses, any_octet-IsOctet, str_to_bin-IsAddress,
}

-- Every entry of both lists is an address.
pub record IsValid (m : IpMask) : Type 0 where
  pub prohibited : AreAddresses m.prohibited_mask
  pub allowed : AreAddresses m.allowed_mask

allow-IsValid :
    (m : IpMask) (f : Fault) (o : Option Address)
    → IsValid m
    → Holds IsAddress o
    → let r : Option Fault × IpMask = elim o [
      | none ↦ (some f, m)
      | some a ↦ (none, record m { allowed_mask = m.allowed_mask ++ (a ∷ []) })
    ] in
      IsValid r.1
allow-IsValid m f none v h = v
allow-IsValid m f (some a) v h = record {
  prohibited = v.prohibited;
  allowed = append-AreAddresses m.allowed_mask a v.allowed h;
}

prohibit-IsValid :
    (m : IpMask) (f : Fault) (o : Option Address)
    → IsValid m
    → Holds IsAddress o
    → let r : Option Fault × IpMask = elim o [
      | none ↦ (some f, m)
      | some a ↦ (none, record m { prohibited_mask = m.prohibited_mask ++ (a ∷ []) })
    ] in
      IsValid r.1
prohibit-IsValid m f none v h = v
prohibit-IsValid m f (some a) v h = record {
  prohibited = append-AreAddresses m.prohibited_mask a v.prohibited h;
  allowed = v.allowed;
}

parse_line-IsValid :
    (to_int : List ℕ → Option ℤ) (m : IpMask) (line : List ℕ)
    → IsValid m
    → IsValid (parse_line to_int m line).1
unfolding parse_line
parse_line-IsValid to_int m [] v =
    allow-IsValid m Fault.bad_allowed_format (str_to_bin to_int [] true) v
      (str_to_bin-IsAddress to_int [] true)
parse_line-IsValid to_int m (c ∷ line) v =
    if_either {A = Option Fault × IpMask} (λ r. IsValid r.1) (c == 0x21) _ _
      (prohibit-IsValid m Fault.bad_prohibited_format (str_to_bin to_int line true) v
        (str_to_bin-IsAddress to_int line true))
      (allow-IsValid m Fault.bad_allowed_format (str_to_bin to_int (c ∷ line) true) v
        (str_to_bin-IsAddress to_int (c ∷ line) true))

parse_lines-IsValid :
    (split : List ℕ → List ℕ → List (List ℕ)) (to_int : List ℕ → Option ℤ) (m : IpMask)
    (lines : List (List ℕ))
    → IsValid m
    → IsValid (parse_lines split to_int m lines).1
unfolding parse_lines
parse_lines-IsValid split to_int m [] v = v
parse_lines-IsValid split to_int m (line ∷ lines) v =
    let r = parse_line to_int m line in
    let w = parse_line-IsValid to_int m line v in
    if_either {A = Option Fault × IpMask} (λ t. IsValid t.1)
      (ltb 4 (length (split line (0x2e ∷ [])))) _ _ v
      (elim (Option-cases r.0) [
        | inl e ↦ rw (e, parse_lines) (parse_lines-IsValid split to_int r.1 lines w)
        | inr (f, e) ↦ rw (e, parse_lines) w
      ])

local_addresses-IsAddress : IsAddress local_addresses
local_addresses-IsAddress =
    ((omega arith, λ e. absurd (cc)), any_octet-IsOctet, any_octet-IsOctet, any_octet-IsOctet)

finish_mask-IsValid : (m : IpMask) → IsValid m → IsValid (finish_mask m).1
unfolding finish_mask
finish_mask-IsValid m v =
    let m1 : IpMask =
      if length m.allowed_mask == 0 then record m { allowed_mask = local_addresses ∷ [] } else m in
    let w : IsValid m1 =
      if_either IsValid (length m.allowed_mask == 0) _ m
        (record { prohibited = v.prohibited; allowed = (local_addresses-IsAddress, tt) }) v in
    if_either {A = Option Fault × IpMask} (λ r. IsValid r.1)
      (contains m1.prohibited_mask any_address) _ _ w
      (record { prohibited = w.prohibited; allowed = w.allowed })

new-IsValid :
    (split : List ℕ → List ℕ → List (List ℕ)) (to_int : List ℕ → Option ℤ)
    (mask delimiters : List ℕ)
    → IsValid (new split to_int mask delimiters)
unfolding new parse_mask
new-IsValid split to_int mask delimiters =
    let m : IpMask = record { prohibited_mask = []; allowed_mask = []; mask_parsed = false } in
    let lines = split mask delimiters in
    let w = parse_lines-IsValid split to_int m lines (record { prohibited = tt; allowed = tt }) in
    elim (Option-cases (parse_lines split to_int m lines).0) [
      | inl e ↦ rw (e, new, parse_mask) (finish_mask-IsValid (parse_lines split to_int m lines).1 w)
      | inr (f, e) ↦ rw (e, new, parse_mask) w
    ]

-- Some entry of a list stands for the address.
abbrev pub any_allows : Address → List Address → Bool
any_allows a [] = false
any_allows a (m ∷ ms) = allows_address a m || any_allows a ms

any_matches-any_allows :
    (a : Address) (ms : List Address)
    → IsAddress a
    → AreAddresses ms
    → any_matches a ms ≡ any_allows a ms
unfolding any_matches
any_matches-any_allows a [] h k = refl
any_matches-any_allows a (m ∷ ms) h k =
    ground (arith, matches-allows_address a m h k.0, any_matches-any_allows a ms h k.1)

-- On any mask text and any address text, whatever `split` and `toInt` make of them, an address is
-- let through exactly when it and the mask were read, some allowed entry stands for it and no
-- prohibited one does, where an entry stands for the addresses that have its bytes, with `*` for
-- any byte.
pub check_ip_address-new :
    (split : List ℕ → List ℕ → List (List ℕ)) (to_int : List ℕ → Option ℤ)
    (mask delimiters text : List ℕ)
    → let m = new split to_int mask delimiters in
      (check_ip_address to_int m text).0 ≡ elim (str_to_bin to_int text false) [
        | none ↦ false
        | some a ↦
            m.mask_parsed && (not (any_allows a m.prohibited_mask) && any_allows a m.allowed_mask)
      ]
unfolding check_ip_address
check_ip_address-new split to_int mask delimiters text =
    let m = new split to_int mask delimiters in
    let v = new-IsValid split to_int mask delimiters in
    elim (Option-cases (str_to_bin to_int text false)) [
      | inl e ↦ rw (e, check_ip_address) refl
      | inr (a, e) ↦
          let h : IsAddress a =
            subst (Holds IsAddress) e (str_to_bin-IsAddress to_int text false) in
          rw (e, check_ip_address)
            (ground (
              arith,
              any_matches-any_allows a m.prohibited_mask h v.prohibited,
              any_matches-any_allows a m.allowed_mask h v.allowed,
            ))
    ]
