-- ===== src/Utils/IpMask/Match.antt =====
-- The test of IpMask::checkIpAddress on one entry (Utils/IpMask.cpp), byte by byte.
use threader.Prelude.{
  ℕ, ◌<◌, ◌≡◌, refl, bit_and, bit_or, Bool, true, ◌&&◌, ◌||◌, not, ◌==◌, if◌then◌else◌, arith, inl,
  inr, Bool-cases,
}
use threader.Prelude.Finite.{agrees, agrees-eq}
use threader.Utils.IpMask.{Octet, Address, covers, differs, matches}

-- What an entry means for one byte.
abbrev pub allows : Octet → Octet → Bool
allows a m = m.wild || a.byte == m.byte

unfoldable pub allows_address : Address → Address → Bool
allows_address a m =
    allows a.first m.first
    && (allows a.second m.second && (allows a.third m.third && allows a.fourth m.fourth))

-- A byte of an address, and one of an entry: `*` stands for 0xff.
abbrev pub IsOctet : Octet → Type 0
IsOctet o = (o.byte < 256) × (o.wild ≡ true → o.byte ≡ 0xff)

abbrev pub IsAddress : Address → Type 0
IsAddress a = IsOctet a.first × IsOctet a.second × IsOctet a.third × IsOctet a.fourth

-- Whether both tests pass, for an entry without `*`.
abbrev both_pass : ℕ → ℕ → ℕ
both_pass a m = if bit_and a m == a && bit_or a m == a then 1 else 0

abbrev equal : ℕ → ℕ → ℕ
equal a m = if a == m then 1 else 0

abbrev row : ℕ → ℕ
row a = if agrees (both_pass a) (equal a) 256 then 1 else 0

rows : agrees row (λ _. 1) 256 ≡ true
unfolding agrees
rows = refl

both_pass-equal : (a m : ℕ) → a < 256 → m < 256 → both_pass a m ≡ equal a m
both_pass-equal a m h k =
    agrees-eq (both_pass a) (equal a) 256 m (ground (arith, agrees-eq row (λ _. 1) 256 a rows h)) k

masks_all : agrees (λ a. bit_and a 0xff) (λ a. a) 256 ≡ true
unfolding agrees
masks_all = refl

bit_and-all : (a : ℕ) → a < 256 → bit_and a 0xff ≡ a
bit_and-all a h = agrees-eq (λ i. bit_and i 0xff) (λ i. i) 256 a masks_all h

-- One byte of the test.
octet_lem :
    (a m : Octet)
    → a.byte < 256
    → IsOctet m
    → (bit_and a.byte m.byte == a.byte && not (differs a m)) ≡ allows a m
unfolding differs
octet_lem a m h k = elim (Bool-cases m.wild) [
  | inl w ↦ ground (arith, k.1 w, bit_and-all a.byte h)
  | inr w ↦ ground (arith, both_pass-equal a.byte m.byte h k.0)
]

-- The test on an entry.
pub matches-allows_address :
    (a m : Address) → IsAddress a → IsAddress m → matches a m ≡ allows_address a m
unfolding matches covers allows_address
matches-allows_address a m h k = ground (
  arith,
  octet_lem a.first m.first h.0.0 k.0,
  octet_lem a.second m.second h.1.0 k.1,
  octet_lem a.third m.third h.2.0 k.2,
  octet_lem a.fourth m.fourth h.3.0 k.3,
)
