-- ===== src/Utils/IpMask/Octets.antt =====
-- What IpMask::strToBin reads (Utils/IpMask.cpp).
use threader.Prelude.{
  ℕ, zero, suc, ◌+◌, Bool, ◌&&◌, Option, none, some, List, [], ◌∷◌, ◌++◌, ◌==◌, if_either, take,
  drop, replicate, refl, arith, inl, inr, Option-cases,
}
use threader.Prelude.Int.{ℤ, pos, negsuc}
use threader.Utils.IpMask.{
  Octet, Address, any_octet, find_char, starts_wild, octet_of, octet_at, octets, address_of,
  str_to_bin,
}
use threader.Utils.IpMask.Match.{IsOctet, IsAddress}

-- A property of the value, if there is one.
abbrev pub Holds {ℓ} : {A : Type ℓ} → (A → Type 0) → Option A → Type 0
Holds P none = Unit {0}
Holds P (some a) = P a

abbrev AreOctets : List Octet → Type 0
AreOctets [] = Unit {0}
AreOctets (o ∷ os) = IsOctet o × AreOctets os

abbrev pub AreAddresses : List Address → Type 0
AreAddresses [] = Unit {0}
AreAddresses (a ∷ rest) = IsAddress a × AreAddresses rest

pub append-AreAddresses :
    (ms : List Address) (a : Address)
    → AreAddresses ms
    → IsAddress a
    → AreAddresses (ms ++ (a ∷ []))
append-AreAddresses [] a h k = (k, tt)
append-AreAddresses (m ∷ ms) a h k = (h.0, append-AreAddresses ms a h.1 k)

pub any_octet-IsOctet : IsOctet any_octet
any_octet-IsOctet = (omega arith, λ e. refl)

replicate-AreOctets : (n : ℕ) → AreOctets (replicate n any_octet)
replicate-AreOctets zero = tt
replicate-AreOctets (suc n) = (any_octet-IsOctet, replicate-AreOctets n)

octet_of-IsOctet : (n : Option ℤ) → Holds IsOctet (octet_of n)
unfolding octet_of
octet_of-IsOctet none = tt
octet_of-IsOctet (some (negsuc n)) = tt
octet_of-IsOctet (some (pos n)) = ground arith

octet_at-IsOctet :
    (to_int : List ℕ → Option ℤ) (use_match : Bool) (text : List ℕ) (p : ℕ)
    → Holds IsOctet (octet_at to_int use_match text p)
unfolding octet_at
octet_at-IsOctet to_int use_match text p =
    if_either (Holds IsOctet) (use_match && starts_wild text) (some any_octet)
      (octet_of (to_int (take p text))) any_octet-IsOctet (octet_of-IsOctet (to_int (take p text)))

one-AreOctets :
    (o : Option Octet)
    → Holds IsOctet o
    → Holds AreOctets (elim o [ none ↦ none | some x ↦ some (x ∷ []) ])
one-AreOctets none h = tt
one-AreOctets (some o) h = (h, tt)

more-AreOctets :
    (o : Option Octet) (os : Option (List Octet))
    → Holds IsOctet o
    → Holds AreOctets os
    → Holds AreOctets
        (elim o [ none ↦ none | some x ↦ elim os [ none ↦ none | some xs ↦ some (x ∷ xs) ] ])
more-AreOctets none os h k = tt
more-AreOctets (some o) none h k = tt
more-AreOctets (some o) (some os) h k = (h, k)

octets-AreOctets :
    (to_int : List ℕ → Option ℤ) (use_match : Bool) (n : ℕ) (text : List ℕ)
    → Holds AreOctets (octets to_int use_match n text)
unfolding octets
octets-AreOctets to_int use_match zero text = tt
octets-AreOctets to_int use_match (suc n) text = elim (Option-cases (find_char 0x2e text)) [
  | inl e ↦
      rw (e, octets)
        (if_either (Holds AreOctets) (use_match && starts_wild text)
          (some (replicate (suc n) any_octet)) _ (replicate-AreOctets (suc n))
          (if_either (Holds AreOctets) (n == 0) _ none
            (one-AreOctets (octet_of (to_int text)) (octet_of-IsOctet (to_int text))) tt))
  | inr (p, e) ↦
      rw (e, octets)
        (more-AreOctets (octet_at to_int use_match text p)
          (octets to_int use_match n (drop (p + 1) text)) (octet_at-IsOctet to_int use_match text p)
          (octets-AreOctets to_int use_match n (drop (p + 1) text)))
]

address_of-IsAddress : (os : List Octet) → AreOctets os → Holds IsAddress (address_of os)
address_of-IsAddress [] h = tt
address_of-IsAddress (a ∷ []) h = tt
address_of-IsAddress (a ∷ b ∷ []) h = tt
address_of-IsAddress (a ∷ b ∷ c ∷ []) h = tt
address_of-IsAddress (a ∷ b ∷ c ∷ d ∷ []) h = (h.0, h.1.0, h.1.1.0, h.1.1.1.0)
address_of-IsAddress (a ∷ b ∷ c ∷ d ∷ (e ∷ os)) h = tt

pub str_to_bin-IsAddress :
    (to_int : List ℕ → Option ℤ) (text : List ℕ) (use_match : Bool)
    → Holds IsAddress (str_to_bin to_int text use_match)
unfolding str_to_bin
str_to_bin-IsAddress to_int text use_match =
    elim (octets to_int use_match 4 text)
        as (λ o.
          Holds AreOctets o → Holds IsAddress (elim o [ none ↦ none | some os ↦ address_of os ])) [
            | none ↦ λ h. tt
            | some os ↦ λ h. address_of-IsAddress os h
          ]
      (octets-AreOctets to_int use_match 4 text)
