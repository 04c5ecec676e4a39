-- ===== src/Frames/Definitions/Reading.antt =====
-- The definitions that are read from XML against the document (Frames/DataFramesCommon.cpp).
use threader.Prelude.{
  ℕ, ◌≡◌, refl, ap, ◌∙◌, Option, none, some, List, [], ◌∷◌, ◌++◌, ◌==◌, sym, Bool, true, false,
  if◌then◌else◌, map, arith, append-nil, append_assoc,
}
use threader.Frames.Definitions.{
  Strings, AtomDefinition, FrameDefinition, FrameAttributes, AtomAttributes, Token, data_frames,
  data_frame, data_atom, other, Definitions, parse_data_frame_attributes,
  parse_data_atom_attributes, insert, lookup, append_atom_at, append_definition, read_token,
  read_tokens, new_frame,
}

lookup-insert :
    (key k : ℕ) (f : FrameDefinition) (l : List (ℕ × FrameDefinition))
    → lookup key (insert k f l) ≡ (if k == key then some f else lookup key l)
unfolding lookup insert
lookup-insert key k f [] = refl
lookup-insert key k f ((j, g) ∷ l) = ground (arith, lookup-insert key k f l)

abbrev add_atom : AtomDefinition → Option FrameDefinition → Option FrameDefinition
add_atom a none = none
add_atom a (some g) = some (record g { atoms = g.atoms ++ (a ∷ []) })

lookup-append_atom_at :
    (key k : ℕ) (a : AtomDefinition) (l : List (ℕ × FrameDefinition))
    → lookup key (append_atom_at k a l)
      ≡ (if k == key then add_atom a (lookup key l) else lookup key l)
unfolding lookup append_atom_at
lookup-append_atom_at key k a [] = ground arith
lookup-append_atom_at key k a ((j, g) ∷ l) = ground (arith, lookup-append_atom_at key k a l)

-- A document: the attributes of each frame, and of its atoms.
abbrev pub Document : Type 0
Document = List (FrameAttributes × List AtomAttributes)

-- The atoms before the next frame.
unfoldable pub atoms_of : List Token → List AtomAttributes
atoms_of [] = []
atoms_of (data_frames v ∷ ts) = atoms_of ts
atoms_of (data_frame a ∷ ts) = []
atoms_of (data_atom b ∷ ts) = b ∷ atoms_of ts
atoms_of (other ∷ ts) = atoms_of ts

-- The document that the tokens spell: each frame with the atoms behind it, and whatever else stands
-- before, between and behind them left out.
unfoldable pub elements : List Token → Document
elements [] = []
elements (data_frames v ∷ ts) = elements ts
elements (data_frame a ∷ ts) = (a, atoms_of ts) ∷ elements ts
elements (data_atom b ∷ ts) = elements ts
elements (other ∷ ts) = elements ts

-- Whether an atom stands before every frame.
abbrev pub atom_first : List Token → Bool
atom_first [] = false
atom_first (data_frames v ∷ ts) = atom_first ts
atom_first (data_frame a ∷ ts) = false
atom_first (data_atom a ∷ ts) = true
atom_first (other ∷ ts) = atom_first ts

abbrev pub frame_of : Strings → FrameAttributes × List AtomAttributes → FrameDefinition
frame_of q (a, bs) = record (parse_data_frame_attributes q a) {
  atoms = map (parse_data_atom_attributes q) bs;
}

abbrev pub key_of : Strings → FrameAttributes → ℕ
key_of q a = q.upper (q.upper (parse_data_frame_attributes q a).name)

-- The last frame of the document with a key, or what there was before.
unfoldable pub last_with : Strings → ℕ → Document → Option FrameDefinition → Option FrameDefinition
last_with q key [] before = before
last_with q key ((a, bs) ∷ doc) before =
    last_with q key doc (if key_of q a == key then some (frame_of q (a, bs)) else before)

abbrev add_atoms : Strings → List AtomAttributes → Option FrameDefinition → Option FrameDefinition
add_atoms q bs none = none
add_atoms q bs (some g) =
    some (record g { atoms = g.atoms ++ map (parse_data_atom_attributes q) bs })

add_atoms_nil : (q : Strings) (o : Option FrameDefinition) → add_atoms q [] o ≡ o
add_atoms_nil q none = refl
add_atoms_nil q (some g) =
    ap (λ (t : List AtomDefinition). some (record g { atoms = t })) (append-nil g.atoms)

add_atoms_cons :
    (q : Strings) (b : AtomAttributes) (bs : List AtomAttributes) (o : Option FrameDefinition)
    → add_atoms q bs (add_atom (parse_data_atom_attributes q b) o) ≡ add_atoms q (b ∷ bs) o
add_atoms_cons q b bs none = refl
add_atoms_cons q b bs (some g) =
    ap (λ (t : List AtomDefinition). some (record g { atoms = t }))
      (append_assoc g.atoms (parse_data_atom_attributes q b ∷ [])
        (map (parse_data_atom_attributes q) bs))

fresh_atoms :
    (q : Strings) (a : FrameAttributes) (bs : List AtomAttributes)
    → add_atoms q bs (some (parse_data_frame_attributes q a)) ≡ some (frame_of q (a, bs))
unfolding parse_data_frame_attributes new_frame
fresh_atoms q a bs = refl

-- A frame by its key, with the atoms added if it is the current one.
abbrev with_atoms :
    Strings → ℕ → ℕ → List AtomAttributes → List (ℕ × FrameDefinition) → Option FrameDefinition
with_atoms q key k bs l = if k == key then add_atoms q bs (lookup key l) else lookup key l

with_atoms_nil :
    (q : Strings) (key k : ℕ) (l : List (ℕ × FrameDefinition))
    → with_atoms q key k [] l ≡ lookup key l
with_atoms_nil q key k l = ground (arith, add_atoms_nil q (lookup key l))

with_atoms_cons :
    (q : Strings) (key k : ℕ) (b : AtomAttributes) (bs : List AtomAttributes)
    (l : List (ℕ × FrameDefinition))
    → with_atoms q key k bs (append_atom_at k (parse_data_atom_attributes q b) l)
      ≡ with_atoms q key k (b ∷ bs) l
with_atoms_cons q key k b bs l =
    let a = parse_data_atom_attributes q b in
    ground (
      arith,
      lookup-append_atom_at key k a l,
      add_atoms_cons q b bs (lookup key l),
      ap (add_atoms q bs),
    )

with_atoms-insert :
    (q : Strings) (key : ℕ) (a : FrameAttributes) (bs : List AtomAttributes)
    (l : List (ℕ × FrameDefinition))
    → with_atoms q key (key_of q a) bs (insert (key_of q a) (parse_data_frame_attributes q a) l)
      ≡ (if key_of q a == key then some (frame_of q (a, bs)) else lookup key l)
with_atoms-insert q key a bs l =
    let f = parse_data_frame_attributes q a in
    ground (arith, lookup-insert key (key_of q a) f l, fresh_atoms q a bs, ap (add_atoms q bs))

-- What reading leaves under each key, where `before` is what there was.
abbrev Reads : Strings → List Token → (ℕ → Option FrameDefinition) → Option Definitions → Type 0
Reads q ts before o =
    (e : Definitions) × (o ≡ some e)
    × ((key : ℕ) → lookup key e.frames ≡ last_with q key (elements ts) (before key))

read_tokens-Reads :
    (q : Strings) (ts : List Token) (d : Definitions) (k : ℕ)
    → d.current ≡ some k
    → Reads q ts (λ key. with_atoms q key k (atoms_of ts) d.frames) (read_tokens q ts d)
unfolding read_tokens read_token append_definition atoms_of elements last_with
read_tokens-Reads q [] d k h = (d, refl, λ key. sym (with_atoms_nil q key k d.frames))
read_tokens-Reads q (data_frames v ∷ ts) d k h = read_tokens-Reads q ts _ k h
read_tokens-Reads q (data_frame a ∷ ts) d k h =
    let (e, r, t) = read_tokens-Reads q ts _ (key_of q a) refl in
    (
      e,
      r,
      λ key.
          t key
          ∙ ap (last_with q key (elements ts)) (
              with_atoms-insert q key a (atoms_of ts) d.frames
              ∙ ap
                  (λ (o : Option FrameDefinition).
                    if key_of q a == key then some (frame_of q (a, atoms_of ts)) else o)
                  (sym (with_atoms_nil q key k d.frames))),
    )
read_tokens-Reads q (data_atom b ∷ ts) d k h =
    let a = parse_data_atom_attributes q b in
    let (e, r, t) =
      read_tokens-Reads q ts (record d { frames = append_atom_at k a d.frames }) k h in
    (
      e,
      ground (arith, r, h),
      λ key.
          t key
          ∙ ap (last_with q key (elements ts)) (with_atoms_cons q key k b (atoms_of ts) d.frames),
    )
read_tokens-Reads q (other ∷ ts) d k h = read_tokens-Reads q ts d k h

-- Reading tokens without an atom before every frame ends, and the frame of each key is then the last one
-- of the document that they spell with that key, with the atoms that stand behind it, in order; a key
-- that the document does not have keeps its frame.
pub read_tokens-elements :
    (q : Strings) (ts : List Token) (d : Definitions)
    → d.current ≡ none
    → atom_first ts ≡ false
    → Reads q ts (λ key. lookup key d.frames) (read_tokens q ts d)
unfolding read_tokens read_token append_definition atoms_of elements last_with
read_tokens-elements q [] d h n = (d, refl, λ key. refl)
read_tokens-elements q (data_frames v ∷ ts) d h n = read_tokens-elements q ts _ h n
read_tokens-elements q (data_frame a ∷ ts) d h n =
    let (e, r, t) = read_tokens-Reads q ts _ (key_of q a) refl in
    (
      e,
      r,
      λ key.
          t key
          ∙ ap (last_with q key (elements ts)) (with_atoms-insert q key a (atoms_of ts) d.frames),
    )
read_tokens-elements q (data_atom b ∷ ts) d h n = absurd (ground (arith, n))
read_tokens-elements q (other ∷ ts) d h n = read_tokens-elements q ts d h n
