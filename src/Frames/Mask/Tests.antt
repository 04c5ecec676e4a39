-- ===== src/Frames/Mask/Tests.antt =====
-- A run of the theorem on DataFramesMask: the patterns are names, or `*` for every name.
use threader.Prelude.{
  ℕ, ◌-◌, ◌≡◌, ◌&&◌, ◌||◌, Bool, true, false, some, List, [], ◌∷◌, leb, if◌then◌else◌, refl, ap₂,
  arith,
}
use threader.Frames.DataFrames.{same_text}
use threader.Frames.Mask.{new}
use threader.Frames.Mask.Cache.{answers}
use threader.Frames.Mask.Answers.{any_star, answers-new}

abbrev upper : ℕ → ℕ
upper c = if leb 0x61 c && leb c 0x7a then c - 0x20 else c

abbrev to_upper : List ℕ → List ℕ
to_upper [] = []
to_upper (c ∷ cs) = upper c ∷ to_upper cs

upper_lem : (c : ℕ) → upper (upper c) ≡ upper c
upper_lem c = ground arith

to_upper_lem : (cs : List ℕ) → to_upper (to_upper cs) ≡ to_upper cs
to_upper_lem [] = refl
to_upper_lem (c ∷ cs) = ap₂ (λ d ds. d ∷ ds) (upper_lem c) (to_upper_lem cs)

abbrev exact_match : List ℕ → List ℕ → Bool
exact_match pattern name = same_text pattern (0x2a ∷ []) || same_text pattern name

-- The parts of the mask "* !b", and the names "A", "*" and "B" of definitions.
abbrev split : List ℕ → List (List ℕ)
split mask = (0x2a ∷ []) ∷ (0x21 ∷ 0x62 ∷ []) ∷ []

abbrev keys : List (List ℕ)
keys = (0x41 ∷ []) ∷ (0x2a ∷ []) ∷ (0x42 ∷ []) ∷ []

-- "a", "b" and "*"
answers-new_example :
    (any_star (new to_upper exact_match split (λ items. items) [] (some keys)).known_names ≡ false)
    × (answers to_upper exact_match
          (new to_upper exact_match split (λ items. items) [] (some keys))
          ((0x61 ∷ []) ∷ (0x62 ∷ []) ∷ (0x2a ∷ []) ∷ [])
        ≡ true ∷ false ∷ true ∷ [])
unfolding same_text
answers-new_example =
    answers-new to_upper exact_match split (λ items. items) [] (some keys)
      ((0x61 ∷ []) ∷ (0x62 ∷ []) ∷ (0x2a ∷ []) ∷ []) to_upper_lem
