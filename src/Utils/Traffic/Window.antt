-- ===== src/Utils/Traffic/Window.antt =====
-- The history of Utils/TrafficCounter.cpp is that of the last seconds, when times do not go back.
use threader.Prelude.{
  ℕ, suc, ◌+◌, ◌%◌, ◌^◌, ◌≤◌, ◌<◌, ◌≡◌, refl, ap, Option, none, some, List, [], ◌∷◌, ◌++◌, ltb,
  if◌then◌else◌, drop, arith, Bool-cases, inl, inr,
}
use threader.Utils.Traffic.{TrafficHistory, TrafficCounter, count_loop, append}

-- The entries from a time on, and what they count.
abbrev pub since : ℕ → List TrafficHistory → List TrafficHistory
since limit [] = []
since limit (h ∷ hs) = if ltb h.received limit then since limit hs else h ∷ since limit hs

abbrev pub sum : List TrafficHistory → ℕ
sum [] = 0
sum (h ∷ hs) = (h.count + sum hs) % 2 ^ 64

-- Times that do not go back, from `t` on.
abbrev pub SortedFrom : ℕ → List TrafficHistory → Type 0
SortedFrom t [] = 0 ≤ 0
SortedFrom t (h ∷ hs) = (t ≤ h.received) × SortedFrom h.received hs

late_loop :
    (limit t : ℕ) (hs : List TrafficHistory)
    → limit ≤ t
    → SortedFrom t hs
    → (count_loop limit hs ≡ (0, sum hs)) × (since limit hs ≡ hs)
unfolding count_loop
late_loop limit t [] le s = (refl, refl)
late_loop limit t (h ∷ hs) le (a, s) = ground (arith, late_loop limit h.received hs (omega arith) s)

drop_one_more :
    (n : ℕ) (h : TrafficHistory) (hs : List TrafficHistory) → drop (n + 1) (h ∷ hs) ≡ drop n hs
drop_one_more n h hs = let e : n + 1 ≡ suc n = omega arith in ap (λ (k : ℕ). drop k (h ∷ hs)) e

-- Counting and removing from the front is what keeping the entries from the limit on is.
pub count_loop-since :
    (limit t : ℕ) (hs : List TrafficHistory)
    → SortedFrom t hs
    → (drop (count_loop limit hs).0 hs ≡ since limit hs)
      × ((count_loop limit hs).1 ≡ sum (since limit hs))
unfolding count_loop
count_loop-since limit t [] s = (refl, refl)
count_loop-since limit t (h ∷ hs) (a, s) = elim (Bool-cases (ltb h.received limit)) [
  | inl e ↦
      ground
        (arith, count_loop-since limit h.received hs s, drop_one_more (count_loop limit hs).0 h hs)
  | inr e ↦ ground (arith, late_loop limit h.received hs (ground arith) s)
]

-- What is appended: the time and the count of an entry, and the time of the append.
pub record Sample : Type 0 where
  pub time : ℕ
  pub count : ℕ
  pub now : ℕ

abbrev pub entry : Sample → TrafficHistory
entry x = record { received = x.time; count = x.count }

unfoldable pub append_all : List Sample → TrafficCounter → Option TrafficCounter
append_all [] c = some c
append_all (x ∷ xs) c = elim (append x.now x.time x.count c) [
  | none ↦ none
  | some r ↦ append_all xs (r.1)
]

-- Times that do not go back: each entry's is between that of the append before it and its own.
abbrev pub InOrder : ℕ → List Sample → Type 0
InOrder t [] = 0 ≤ 0
InOrder t (x ∷ xs) = (t ≤ x.time) × (x.time ≤ x.now) × (x.now < 2 ^ 63) × InOrder x.now xs

-- The entries and the time of the last append.
unfoldable pub entries : List TrafficHistory → List Sample → List TrafficHistory
entries hs [] = hs
entries hs (x ∷ xs) = entries (hs ++ (entry x ∷ [])) xs

abbrev pub last_now : ℕ → List Sample → ℕ
last_now t [] = t
last_now t (x ∷ xs) = last_now x.now xs

abbrev pub total_of : ℕ → List Sample → ℕ
total_of n [] = n
total_of n (x ∷ xs) = total_of ((n + x.count) % 2 ^ 64) xs

pub since-since : (a b : ℕ) (hs : List TrafficHistory) → a ≤ b → since b (since a hs) ≡ since b hs
since-since a b [] le = refl
since-since a b (h ∷ hs) le = ground (arith, since-since a b hs le)

pub since-append :
    (a : ℕ) (xs ys : List TrafficHistory) → since a (xs ++ ys) ≡ since a xs ++ since a ys
since-append a [] ys = refl
since-append a (x ∷ xs) ys = ground (arith, since-append a xs ys)
