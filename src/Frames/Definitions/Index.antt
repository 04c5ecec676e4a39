-- ===== src/Frames/Definitions/Index.antt =====
-- Looking up what was read: frames by name, and atoms of a frame by name (Frames/DataFramesCommon.cpp).
use threader.Prelude.{
  ℕ, ◌+◌, ◌%◌, ◌<◌, ◌≡◌, ◌≢◌, ◌↔◌, refl, ap, ◌∙◌, Bool, true, false, Option, none, some, List, [],
  ◌∷◌, ◌++◌, ◌==◌, if◌then◌else◌, length, arith, not, ◌&&◌,
}
use threader.Prelude.Int.{pos, negsuc}
use threader.Frames.Definitions.{
  Strings, AtomDefinition, FrameDefinition, FrameAttributes, Token, data_frames, data_frame,
  data_atom, other, Definitions, parse_data_frame_attributes, parse_data_atom_attributes, lookup,
  append_atom_at, append_definition, read_token, read_tokens, read_from_reader, definition_by_key,
  new_frame, index_from, index_of_atom_by_name, value_or, uint_or_one,
}
use threader.Frames.Definitions.Reading.{
  Document, elements, atom_first, frame_of, last_with, read_tokens-elements,
}

-- The last frame of the document whose name is `name` but for case, or what there was before.
unfoldable pub last_named : Strings → ℕ → Document → Option FrameDefinition → Option FrameDefinition
last_named q name [] before = before
last_named q name ((a, bs) ∷ doc) before = last_named q name doc (
    if q.upper (value_or a.name q.empty) == q.upper name then some (frame_of q (a, bs)) else before)

last_with-last_named :
    (q : Strings) (name : ℕ) (doc : Document) (before : Option FrameDefinition)
    → ((s : ℕ) → q.upper (q.upper s) ≡ q.upper s)
    → last_with q (q.upper name) doc before ≡ last_named q name doc before
unfolding last_with last_named parse_data_frame_attributes new_frame
last_with-last_named q name [] before u = refl
last_with-last_named q name ((a, bs) ∷ doc) before u =
    ap
      (λ (k : ℕ).
        last_with q (q.upper name) doc
          (if k == q.upper name then some (frame_of q (a, bs)) else before))
      (u (value_or a.name q.empty))
    ∙ last_with-last_named q name doc _ u

-- Whatever tokens a reader gives, with no atom before every frame, reading ends without an error, and a
-- frame is then found by its name in any case: it is the last frame of that name among the tokens, with
-- the atoms that stand behind it, in order, and when there is none, what was found before. What is in
-- upper case already is not changed by it.
pub definition_by_key-read_from_reader :
    (q : Strings) (ts : List Token) (d : Definitions)
    → ((s : ℕ) → q.upper (q.upper s) ≡ q.upper s)
    → atom_first ts ≡ false
    → (e : Definitions) × (read_from_reader q ts d ≡ some e)
      × ((name : ℕ)
          → definition_by_key q name e
            ≡ last_named q name (elements ts) (definition_by_key q name d))
unfolding read_from_reader definition_by_key
definition_by_key-read_from_reader q ts d u n =
    let (e, r, t) = read_tokens-elements q ts (record d { current = none }) refl n in
    (
      e,
      r,
      λ name.
          t (q.upper name)
          ∙ last_with-last_named q name (elements ts) (lookup (q.upper name) d.frames) u,
    )

read_tokens-some :
    (q : Strings) (ts : List Token) (d : Definitions) (k : ℕ)
    → d.current ≡ some k
    → read_tokens q ts d ≢ none
unfolding read_tokens read_token append_definition
read_tokens-some q [] d k e h = ground arith
read_tokens-some q (data_frames v ∷ ts) d k e h = read_tokens-some q ts _ k e h
read_tokens-some q (data_frame a ∷ ts) d k e h = read_tokens-some q ts _ _ refl h
read_tokens-some q (data_atom a ∷ ts) d k e h =
    let more = append_atom_at k (parse_data_atom_attributes q a) d.frames in
    ground (arith, read_tokens-some q ts (record d { frames = more }) k e)
read_tokens-some q (other ∷ ts) d k e h = read_tokens-some q ts d k e h

read_tokens-none :
    (q : Strings) (ts : List Token) (d : Definitions)
    → d.current ≡ none
    → (read_tokens q ts d ≡ none) ↔ (atom_first ts ≡ true)
unfolding read_tokens read_token append_definition
read_tokens-none q [] d e = ground arith
read_tokens-none q (data_frames v ∷ ts) d e = read_tokens-none q ts _ e
read_tokens-none q (data_frame a ∷ ts) d e =
    (λ h. absurd (read_tokens-some q ts _ _ refl h), λ h. absurd (ground (arith, h)))
read_tokens-none q (data_atom a ∷ ts) d e = ground arith
read_tokens-none q (other ∷ ts) d e = read_tokens-none q ts d e

-- Reading calls a method through a null pointer exactly when an atom stands before every frame.
pub read_from_reader-none :
    (q : Strings) (ts : List Token) (d : Definitions)
    → (read_from_reader q ts d ≡ none) ↔ (atom_first ts ≡ true)
unfolding read_from_reader
read_from_reader-none q ts d = read_tokens-none q ts (record d { current = none }) refl

zero_priority :
    (q : Strings) (o : Option ℕ)
    → uint_or_one q o % 256 ≡ 0
    → (v : ℕ) × (o ≡ some v) × (q.to_uint v % 256 ≡ 0) × (0 < q.to_uint v)
zero_priority q none h = absurd (omega (arith, h))
zero_priority q (some v) h = (v, refl, ground arith, ground arith)

uint_or_one_positive : (q : Strings) (o : Option ℕ) → 0 < uint_or_one q o
uint_or_one_positive q none = omega arith
uint_or_one_positive q (some v) = ground arith

-- The capacity that is read is positive, and the priority is a byte; the priority is 0 only where the
-- attribute is a multiple of 256, which the test for at least 1 lets pass.
pub parse_data_frame_attributes-bounds :
    (q : Strings) (a : FrameAttributes)
    → let f = parse_data_frame_attributes q a in
      (0 < f.capacity)
      × (f.priority < 256)
      × (f.priority ≡ 0
          → (v : ℕ) × (a.priority ≡ some v) × (q.to_uint v % 256 ≡ 0) × (0 < q.to_uint v))
unfolding parse_data_frame_attributes new_frame
parse_data_frame_attributes-bounds q a =
    (uint_or_one_positive q a.capacity, omega arith, zero_priority q a.priority)

-- No atom has the name, in any case.
abbrev pub none_named : Strings → ℕ → List AtomDefinition → Bool
none_named q name [] = true
none_named q name (x ∷ xs) = not (q.upper x.name == q.upper name) && none_named q name xs

index_from-append :
    (q : Strings) (name i : ℕ) (xs : List AtomDefinition) (a : AtomDefinition)
    (ys : List AtomDefinition)
    → none_named q name xs ≡ true
    → q.upper a.name ≡ q.upper name
    → index_from q name i (xs ++ (a ∷ ys)) ≡ pos (i + length xs)
unfolding index_from
index_from-append q name i [] a ys n e = ground arith
index_from-append q name i (x ∷ xs) a ys n e =
    ground (arith, index_from-append q name (i + 1) xs a ys)

index_from-none_named :
    (q : Strings) (name i : ℕ) (xs : List AtomDefinition)
    → none_named q name xs ≡ true
    → index_from q name i xs ≡ negsuc 0
unfolding index_from
index_from-none_named q name i [] n = refl
index_from-none_named q name i (x ∷ xs) n = ground (arith, index_from-none_named q name (i + 1) xs)

-- The index by a name is the number of the atoms before the first one that has the name in any case, and
-- -1 when none has it.
pub index_of_atom_by_name-append :
    (q : Strings) (name : ℕ) (f : FrameDefinition) (xs : List AtomDefinition) (a : AtomDefinition)
    (ys : List AtomDefinition)
    → none_named q name xs ≡ true
    → q.upper a.name ≡ q.upper name
    → (index_of_atom_by_name q name (record f { atoms = xs ++ (a ∷ ys) }) ≡ pos (length xs))
      × (index_of_atom_by_name q name (record f { atoms = xs }) ≡ negsuc 0)
unfolding index_of_atom_by_name
index_of_atom_by_name-append q name f xs a ys n e = (
  index_from-append q name 0 xs a ys n e ∙ ap pos (omega arith),
  index_from-none_named q name 0 xs n,
)
