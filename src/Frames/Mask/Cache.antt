-- ===== src/Frames/Mask/Cache.antt =====
-- The cache of DataFramesMask does not change its answers (Frames/DataFramesMask.cpp).
use threader.Prelude.{
  ℕ, ◌≡◌, refl, ap, ap₂, ◌∙◌, sym, Bool, true, false, ◌||◌, ◌&&◌, not, Option, none, some, List, [],
  ◌∷◌, ◌++◌, ◌==◌, if◌then◌else◌, arith, inl, inr, Bool-cases, ==_iff,
}
use threader.Frames.DataFrames.{same_text}
use threader.Frames.Mask.{DataFramesMask, any_match, known, remember, allow_frame_by_masks, allow}

-- What one part of the mask text says of a name: that it is allowed, that it is prohibited.
abbrev pub allows_name : (List ℕ → List ℕ → Bool) → List ℕ → List ℕ → Bool
allows_name exact_match [] name = false
allows_name exact_match (c ∷ item) name = not (c == 0x21) && exact_match (c ∷ item) name

abbrev pub prohibits_name : (List ℕ → List ℕ → Bool) → List ℕ → List ℕ → Bool
prohibits_name exact_match [] name = false
prohibits_name exact_match (c ∷ item) name = c == 0x21 && exact_match item name

abbrev pub any : {A : Type 0} → (A → Bool) → List A → Bool
any f [] = false
any f (x ∷ xs) = f x || any f xs

-- The answer of the parts of a mask text, in upper case, on a name.
abbrev pub verdict : (List ℕ → List ℕ → Bool) → List (List ℕ) → List ℕ → Bool
verdict exact_match items name =
    not (any (λ item. prohibits_name exact_match item name) items)
    && any (λ item. allows_name exact_match item name) items

-- Queries in a row, each on the mask that the one before leaves.
unfoldable pub answers :
    (List ℕ → List ℕ) → (List ℕ → List ℕ → Bool) → DataFramesMask → List (List ℕ) → List Bool
answers to_upper exact_match m [] = []
answers to_upper exact_match m (name ∷ names) =
    let (b, m1) = allow to_upper exact_match m name in b ∷ answers to_upper exact_match m1 names

same_text-eq : (xs ys : List ℕ) → same_text xs ys ≡ true → xs ≡ ys
unfolding same_text
same_text-eq [] [] h = refl
same_text-eq [] (y ∷ ys) h = absurd (cc)
same_text-eq (x ∷ xs) [] h = absurd (cc)
same_text-eq (x ∷ xs) (y ∷ ys) h = elim (Bool-cases (x == y)) [
  | inl e ↦
      ap₂ (λ z zs. z ∷ zs) ((==_iff x y).0 e)
        (same_text-eq xs ys (ap (λ b. b && same_text xs ys) (sym e) ∙ h))
  | inr e ↦ let clash : false ≡ true = ap (λ b. b && same_text xs ys) (sym e) ∙ h in absurd (cc)
]

pub any_match-append :
    (exact_match : List ℕ → List ℕ → Bool) (ps : List (List ℕ)) (p name : List ℕ)
    → any_match exact_match (ps ++ (p ∷ [])) name
      ≡ (any_match exact_match ps name || exact_match p name)
unfolding any_match
any_match-append exact_match [] p name = ground arith
any_match-append exact_match (q ∷ ps) p name =
    ground (arith, any_match-append exact_match ps p name)

-- Every known name has the answer of the masks.
abbrev pub Right : (List ℕ → Bool) → List (List ℕ × Bool) → Type 0
Right answer [] = Unit {0}
Right answer ((k, b) ∷ ks) = (b ≡ answer k) × Right answer ks

known-Right :
    (answer : List ℕ → Bool) (ks : List (List ℕ × Bool)) (name : List ℕ) (b : Bool)
    → Right answer ks
    → known ks name ≡ some b
    → b ≡ answer name
unfolding known
known-Right answer [] name b h e = absurd (cc)
known-Right answer ((k, r) ∷ ks) name b h e =
    let first = (λ (s : Bool). if s then some r else known ks name) in
    elim (Bool-cases (same_text k name)) [
      | inl s ↦
          let same : some r ≡ some b = ap first (sym s) ∙ e in
          ap (λ (o : Option Bool). elim o [ none ↦ r | some v ↦ v ]) (sym same)
          ∙ h.0
          ∙ ap answer (same_text-eq k name s)
      | inr s ↦ known-Right answer ks name b h.1 (ap first (sym s) ∙ e)
    ]

remember-Right :
    (answer : List ℕ → Bool) (ks : List (List ℕ × Bool)) (name : List ℕ) (b : Bool)
    → Right answer ks
    → b ≡ answer name
    → Right answer (remember ks name b)
unfolding remember
remember-Right answer ks name b h e =
    elim (known ks name) as (λ o. Right answer (elim o [ none ↦ (name, b) ∷ ks | some r ↦ ks ])) [
      | none ↦ (e, h)
      | some r ↦ h
    ]

-- A mask that stands for the parts `items` of a mask text.
pub record IsMask (exact_match : List ℕ → List ℕ → Bool) (items : List (List ℕ))
    (m : DataFramesMask) : Type 0 where
  pub prohibits :
      (name : List ℕ)
      → any_match exact_match m.masks_prohibited name
        ≡ any (λ item. prohibits_name exact_match item name) items
  pub allows :
      (name : List ℕ)
      → any_match exact_match m.masks_allowed name
        ≡ any (λ item. allows_name exact_match item name) items
  pub right : Right (verdict exact_match items) m.known_names

module _ (to_upper : List ℕ → List ℕ) (exact_match : List ℕ → List ℕ → Bool) where
  pub allow_frame_by_masks-verdict :
      (items : List (List ℕ)) (m : DataFramesMask) (name : List ℕ)
      → IsMask exact_match items m
      → ((allow_frame_by_masks to_upper exact_match m name).0
          ≡ verdict exact_match items (to_upper name))
        × IsMask exact_match items (allow_frame_by_masks to_upper exact_match m name).1
  unfolding allow_frame_by_masks
  allow_frame_by_masks-verdict items m name h =
      let answer : (allow_frame_by_masks to_upper exact_match m name).0
          ≡ verdict exact_match items (to_upper name) =
        ground (arith, h.prohibits (to_upper name), h.allows (to_upper name)) in
      (
        answer,
        record {
          prohibits = h.prohibits;
          allows = h.allows;
          right =
              remember-Right (verdict exact_match items) m.known_names (to_upper name) _ h.right
                answer;
        },
      )

  allow_known :
      (items : List (List ℕ)) (m : DataFramesMask) (name : List ℕ) (o : Option Bool)
      → to_upper (to_upper name) ≡ to_upper name
      → IsMask exact_match items m
      → known m.known_names (to_upper name) ≡ o
      → let r : Bool × DataFramesMask = elim o [
        | none ↦ allow_frame_by_masks to_upper exact_match m (to_upper name)
        | some b ↦ (b, m)
      ] in
        (r.0 ≡ verdict exact_match items (to_upper name)) × IsMask exact_match items r.1
  allow_known items m name none u h e =
      let r = allow_frame_by_masks-verdict items m (to_upper name) h in
      (r.0 ∙ ap (verdict exact_match items) u, r.1)
  allow_known items m name (some b) u h e =
      (known-Right (verdict exact_match items) m.known_names (to_upper name) b h.right e, h)

  pub allow-verdict :
      (items : List (List ℕ)) (m : DataFramesMask) (name : List ℕ)
      → to_upper (to_upper name) ≡ to_upper name
      → IsMask exact_match items m
      → ((allow to_upper exact_match m name).0 ≡ verdict exact_match items (to_upper name))
        × IsMask exact_match items (allow to_upper exact_match m name).1
  unfolding allow
  allow-verdict items m name u h =
      allow_known items m name (known m.known_names (to_upper name)) u h refl
