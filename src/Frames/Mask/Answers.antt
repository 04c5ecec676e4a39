-- ===== src/Frames/Mask/Answers.antt =====
-- What the constructor of DataFramesMask makes of a mask text, and the answers to queries
-- (Frames/DataFramesMask.cpp).
use threader.Prelude.{
  ℕ, ◌≡◌, refl, ap, Bool-cases, inl, inr, ap₂, ◌∙◌, sym, Bool, true, false, ◌||◌, Option, none,
  some, List, [], ◌∷◌, if◌then◌else◌, map, arith, subst,
}
use threader.Frames.Mask.{
  DataFramesMask, add_mask, add_masks, any_match, allow_frame_by_masks, allow, has_star, known,
  remember, know_names, new,
}
use threader.Frames.Mask.Cache.{
  allows_name, prohibits_name, any, verdict, answers, any_match-append, Right, IsMask,
  allow_frame_by_masks-verdict, allow-verdict,
}

-- Whether a name with `*` in it is among the known ones.
abbrev pub any_star : List (List ℕ × Bool) → Bool
any_star [] = false
any_star ((k, b) ∷ ks) = has_star k || any_star ks

module _ (to_upper : List ℕ → List ℕ) (exact_match : List ℕ → List ℕ → Bool) where
  know_names-IsMask :
      (items : List (List ℕ)) (keys : List (List ℕ)) (m : DataFramesMask)
      → IsMask exact_match items m
      → IsMask exact_match items (know_names to_upper exact_match m keys)
  unfolding know_names
  know_names-IsMask items [] m h = h
  know_names-IsMask items (key ∷ keys) m h =
      let m1 = (allow_frame_by_masks to_upper exact_match m (to_upper key)).1 in
      know_names-IsMask items keys (if has_star (to_upper key) then m else m1)
        (elim (has_star (to_upper key)) as (λ b. IsMask exact_match items (if b then m else m1)) [
          | true ↦ h
          | false ↦ (allow_frame_by_masks-verdict to_upper exact_match items m (to_upper key) h).1
        ])

  add_mask-prohibits :
      (m : DataFramesMask) (item name : List ℕ)
      → any_match exact_match (add_mask m item).masks_prohibited name
        ≡ (any_match exact_match m.masks_prohibited name || prohibits_name exact_match item name)
  unfolding add_mask
  add_mask-prohibits m [] name = ground arith
  add_mask-prohibits m (c ∷ item) name =
      ground (arith, any_match-append exact_match m.masks_prohibited item name)

  add_mask-allows :
      (m : DataFramesMask) (item name : List ℕ)
      → any_match exact_match (add_mask m item).masks_allowed name
        ≡ (any_match exact_match m.masks_allowed name || allows_name exact_match item name)
  unfolding add_mask
  add_mask-allows m [] name = ground arith
  add_mask-allows m (c ∷ item) name =
      ground (arith, any_match-append exact_match m.masks_allowed (c ∷ item) name)

  add_masks-prohibits :
      (items : List (List ℕ)) (m : DataFramesMask) (name : List ℕ)
      → any_match exact_match (add_masks to_upper m items).masks_prohibited name ≡ (
          any_match exact_match m.masks_prohibited name
          || any (λ item. prohibits_name exact_match item name) (map to_upper items))
  unfolding add_masks
  add_masks-prohibits [] m name = ground arith
  add_masks-prohibits (item ∷ items) m name =
      add_masks-prohibits items (add_mask m (to_upper item)) name
      ∙ ground (arith, add_mask-prohibits m (to_upper item) name)

  add_masks-allows :
      (items : List (List ℕ)) (m : DataFramesMask) (name : List ℕ)
      → any_match exact_match (add_masks to_upper m items).masks_allowed name ≡ (
          any_match exact_match m.masks_allowed name
          || any (λ item. allows_name exact_match item name) (map to_upper items))
  unfolding add_masks
  add_masks-allows [] m name = ground arith
  add_masks-allows (item ∷ items) m name =
      add_masks-allows items (add_mask m (to_upper item)) name
      ∙ ground (arith, add_mask-allows m (to_upper item) name)

  add_mask-known_names :
      (m : DataFramesMask) (item : List ℕ) → (add_mask m item).known_names ≡ m.known_names
  unfolding add_mask
  add_mask-known_names m [] = refl
  add_mask-known_names m (c ∷ item) = ground arith

  add_masks-known_names :
      (items : List (List ℕ)) (m : DataFramesMask)
      → (add_masks to_upper m items).known_names ≡ m.known_names
  unfolding add_masks
  add_masks-known_names [] m = refl
  add_masks-known_names (item ∷ items) m =
      add_masks-known_names items (add_mask m (to_upper item))
      ∙ add_mask-known_names m (to_upper item)

  new-IsMask :
      (split : List ℕ → List (List ℕ)) (sort : List (List ℕ) → List (List ℕ)) (mask : List ℕ)
      (keys : Option (List (List ℕ)))
      → IsMask exact_match
          (map to_upper (sort (split mask)))
          (new to_upper exact_match split sort mask keys)
  unfolding new any_match
  new-IsMask split sort mask keys =
      let empty : DataFramesMask = record {
        known_names = [];
        masks_allowed = [];
        masks_prohibited = [];
      } in
      let items = map to_upper (sort (split mask)) in
      let m = add_masks to_upper empty (sort (split mask)) in
      let h : IsMask exact_match items m = record {
        prohibits = add_masks-prohibits (sort (split mask)) empty;
        allows = add_masks-allows (sort (split mask)) empty;
        right =
            subst (Right (verdict exact_match items))
              (sym (add_masks-known_names (sort (split mask)) empty)) tt;
      } in
      elim keys
        as (λ k.
          IsMask exact_match items
            (elim k [ none ↦ m | some ks ↦ know_names to_upper exact_match m ks ])) [
              | none ↦ h
              | some ks ↦ know_names-IsMask items ks m h
            ]

  answers-verdict :
      (items : List (List ℕ)) (m : DataFramesMask) (names : List (List ℕ))
      → ((name : List ℕ) → to_upper (to_upper name) ≡ to_upper name)
      → IsMask exact_match items m
      → answers to_upper exact_match m names
        ≡ map (λ name. verdict exact_match items (to_upper name)) names
  unfolding answers
  answers-verdict items m [] u h = refl
  answers-verdict items m (name ∷ names) u h =
      let r = allow-verdict to_upper exact_match items m name (u name) h in
      ap₂ (λ b bs. b ∷ bs) r.0
        (answers-verdict items (allow to_upper exact_match m name).1 names u r.1)

  remember-any_star :
      (ks : List (List ℕ × Bool)) (name : List ℕ) (b : Bool)
      → has_star name ≡ false
      → any_star ks ≡ false
      → any_star (remember ks name b) ≡ false
  unfolding remember
  remember-any_star ks name b h k =
      elim (known ks name)
        as (λ o. any_star (elim o [ none ↦ (name, b) ∷ ks | some r ↦ ks ]) ≡ false) [
          | none ↦ ground (arith, h, k)
          | some r ↦ k
        ]

  know_names-any_star :
      (keys : List (List ℕ)) (m : DataFramesMask)
      → ((name : List ℕ) → to_upper (to_upper name) ≡ to_upper name)
      → any_star m.known_names ≡ false
      → any_star (know_names to_upper exact_match m keys).known_names ≡ false
  unfolding know_names allow_frame_by_masks
  know_names-any_star [] m u h = h
  know_names-any_star (key ∷ keys) m u h =
      let m1 = (allow_frame_by_masks to_upper exact_match m (to_upper key)).1 in
      let P = (λ (b : Bool). any_star (if b then m.known_names else m1.known_names) ≡ false) in
      let next : P (has_star (to_upper key)) = elim (Bool-cases (has_star (to_upper key))) [
        | inl e ↦ subst P (sym e) h
        | inr e ↦ subst P (sym e) (
            remember-any_star m.known_names (to_upper (to_upper key)) _ (ap has_star (u key) ∙ e) h)
      ] in
      know_names-any_star keys (if has_star (to_upper key) then m else m1) u (ground (arith, next))

  new-any_star :
      (split : List ℕ → List (List ℕ)) (sort : List (List ℕ) → List (List ℕ)) (mask : List ℕ)
      (keys : Option (List (List ℕ)))
      → ((name : List ℕ) → to_upper (to_upper name) ≡ to_upper name)
      → any_star (new to_upper exact_match split sort mask keys).known_names ≡ false
  unfolding new
  new-any_star split sort mask keys u =
      let empty : DataFramesMask = record {
        known_names = [];
        masks_allowed = [];
        masks_prohibited = [];
      } in
      let m = add_masks to_upper empty (sort (split mask)) in
      let h : any_star m.known_names ≡ false =
        ap any_star (add_masks-known_names (sort (split mask)) empty) in
      elim keys
        as (λ k. any_star (new to_upper exact_match split sort mask k).known_names ≡ false) [
          | none ↦ h
          | some ks ↦ know_names-any_star ks m u h
        ]

  -- Whatever the mask text and the names of the definitions are, the constructor remembers the answer
  -- of no name with `*` in it, and the answers to any names in a row are those of the parts of the mask
  -- text, without the cache: a name is allowed if a part that does not start with `!` matches it and no
  -- part behind a `!` does, parts and names in upper case. That holds of names with `*` too: the
  -- constructor leaves them out of the cache only, and `allow` answers them by the masks. What is in
  -- upper case already is not changed by it.
  pub answers-new :
      (split : List ℕ → List (List ℕ)) (sort : List (List ℕ) → List (List ℕ)) (mask : List ℕ)
      (keys : Option (List (List ℕ))) (names : List (List ℕ))
      → ((name : List ℕ) → to_upper (to_upper name) ≡ to_upper name)
      → (any_star (new to_upper exact_match split sort mask keys).known_names ≡ false)
        × (answers to_upper exact_match (new to_upper exact_match split sort mask keys) names
            ≡ map
                (λ name. verdict exact_match (map to_upper (sort (split mask))) (to_upper name))
                names)
  answers-new split sort mask keys names u = (
    new-any_star split sort mask keys u,
    answers-verdict (map to_upper (sort (split mask)))
        (new to_upper exact_match split sort mask keys) names u (new-IsMask split sort mask keys),
  )
