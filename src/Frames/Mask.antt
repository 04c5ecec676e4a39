-- ===== src/Frames/Mask.antt =====
-- Frames/DataFramesMask.h and Frames/DataFramesMask.cpp: which frames are allowed, by masks on their
-- names, with a cache of the answers. A text is the list of its characters. Arguments are how
-- `QString::toUpper` changes a text, what `QString::split` makes of the mask text, how `std::sort`
-- orders the parts, and whether a pattern of `QRegExp` matches a text.
pub mod Cache
pub mod Answers
mod Tests
use threader.Prelude.{
  ℕ, Bool, true, false, ◌||◌, Option, none, some, List, [], ◌∷◌, ◌++◌, ◌==◌, if◌then◌else◌,
}
use threader.Frames.DataFrames.{same_text}

pub record DataFramesMask : Type 0 where
  pub known_names : List (List ℕ × Bool)
  pub masks_allowed : List (List ℕ)
  pub masks_prohibited : List (List ℕ)

-- A step of the loop of the constructor over the parts of the mask text; `item` is in upper case.
unfoldable pub add_mask : DataFramesMask → List ℕ → DataFramesMask
add_mask m [] = m
add_mask m (c ∷ item) =
    if c == 0x21
    then record m { masks_prohibited = m.masks_prohibited ++ (item ∷ []) }
    else record m { masks_allowed = m.masks_allowed ++ ((c ∷ item) ∷ []) }

unfoldable pub add_masks : (List ℕ → List ℕ) → DataFramesMask → List (List ℕ) → DataFramesMask
add_masks to_upper m [] = m
add_masks to_upper m (item ∷ items) = add_masks to_upper (add_mask m (to_upper item)) items

-- The loops of `allowFrameByMasks`.
unfoldable pub any_match : (List ℕ → List ℕ → Bool) → List (List ℕ) → List ℕ → Bool
any_match exact_match [] name = false
any_match exact_match (p ∷ ps) name =
    let rest = any_match exact_match ps name in if exact_match p name then true else rest

-- `QHash` of the known names.
unfoldable pub known : List (List ℕ × Bool) → List ℕ → Option Bool
known [] name = none
known ((k, b) ∷ ks) name = if same_text k name then some b else known ks name

unfoldable pub remember : List (List ℕ × Bool) → List ℕ → Bool → List (List ℕ × Bool)
remember ks name b = elim (known ks name) [ none ↦ (name, b) ∷ ks | some r ↦ ks ]

-- `allowFrameByMasks`
unfoldable pub allow_frame_by_masks :
    (List ℕ → List ℕ) → (List ℕ → List ℕ → Bool) → DataFramesMask → List ℕ → Bool × DataFramesMask
allow_frame_by_masks to_upper exact_match m name =
    let upper_name = to_upper name in
    let prohibited = any_match exact_match m.masks_prohibited upper_name in
    let allowed = if prohibited then false else any_match exact_match m.masks_allowed upper_name in
    (allowed, record m { known_names = remember m.known_names upper_name allowed })

-- `allow`
unfoldable pub allow :
    (List ℕ → List ℕ) → (List ℕ → List ℕ → Bool) → DataFramesMask → List ℕ → Bool × DataFramesMask
allow to_upper exact_match m name =
    let upper_name = to_upper name in
    elim (known m.known_names upper_name) [
      | none ↦ allow_frame_by_masks to_upper exact_match m upper_name
      | some r ↦ (r, m)
    ]

abbrev pub has_star : List ℕ → Bool
has_star [] = false
has_star (c ∷ cs) = c == 0x2a || has_star cs

-- The loop of the constructor over the names of the definitions.
unfoldable pub know_names :
    (List ℕ → List ℕ) → (List ℕ → List ℕ → Bool) → DataFramesMask → List (List ℕ) → DataFramesMask
know_names to_upper exact_match m [] = m
know_names to_upper exact_match m (key ∷ keys) =
    let name = to_upper key in
    let m1 : DataFramesMask =
      if has_star name then m else (allow_frame_by_masks to_upper exact_match m name).1 in
    know_names to_upper exact_match m1 keys

-- The constructor; `keys` is `none` without definitions.
unfoldable pub new :
    (List ℕ → List ℕ)
    → (List ℕ → List ℕ → Bool)
    → (List ℕ → List (List ℕ))
    → (List (List ℕ) → List (List ℕ))
    → List ℕ
    → Option (List (List ℕ))
    → DataFramesMask
new to_upper exact_match split sort mask keys =
    let m =
      add_masks to_upper (record { known_names = []; masks_allowed = []; masks_prohibited = [] })
        (sort (split mask)) in
    elim keys [ none ↦ m | some ks ↦ know_names to_upper exact_match m ks ]
