-- ===== src/Utils/Traffic/History.antt =====
-- Appends to Utils/TrafficCounter.cpp, with times that do not go back, against the list of all entries.
use threader.Prelude.{
  ℕ, ◌+◌, ◌-◌, ◌*◌, ◌/◌, ◌%◌, ◌^◌, ◌≤◌, ◌<◌, ◌≡◌, refl, ap, ◌∙◌, sym, Option, none, some, List, [],
  ◌∷◌, ◌++◌, ltb, arith, if_either, subst,
}
use threader.Utils.Traffic.{TrafficHistory, TrafficCounter, new, limit_at, actualize, append}
use threader.Utils.Traffic.Window.{
  since, sum, SortedFrom, count_loop-since, Sample, entry, append_all, InOrder, entries, last_now,
  total_of, since-since, since-append,
}

limit_exact : (s now : ℕ) → 1000 * s ≤ now → now < 2 ^ 63 → limit_at s now ≡ now - 1000 * s
unfolding limit_at
limit_exact s now h k = omega arith

-- No entry is later than `t`.
abbrev UpTo : ℕ → List TrafficHistory → Type 0
UpTo t [] = 0 ≤ 0
UpTo t (h ∷ hs) = (h.received ≤ t) × UpTo t hs

sorted_earlier : (s t : ℕ) (hs : List TrafficHistory) → s ≤ t → SortedFrom t hs → SortedFrom s hs
sorted_earlier s t [] le o = omega arith
sorted_earlier s t (h ∷ hs) le (a, o) = (omega arith, o)

since-SortedFrom :
    (a s : ℕ) (hs : List TrafficHistory) → SortedFrom s hs → SortedFrom s (since a hs)
since-SortedFrom a s [] o = omega arith
since-SortedFrom a s (h ∷ hs) (b, o) =
    let ih = since-SortedFrom a h.received hs o in
    if_either (SortedFrom s) (ltb h.received a) _ _ (sorted_earlier s h.received (since a hs) b ih)
      (b, ih)

since-UpTo : (a t : ℕ) (hs : List TrafficHistory) → UpTo t hs → UpTo t (since a hs)
since-UpTo a t [] o = omega arith
since-UpTo a t (h ∷ hs) (b, o) =
    let ih = since-UpTo a t hs o in if_either (UpTo t) (ltb h.received a) _ _ ih (b, ih)

append-SortedFrom :
    (s t : ℕ) (hs : List TrafficHistory) (e : TrafficHistory)
    → SortedFrom s hs
    → UpTo t hs
    → s ≤ t
    → t ≤ e.received
    → SortedFrom s (hs ++ (e ∷ []))
append-SortedFrom s t [] e o u le le2 = (omega arith, omega arith)
append-SortedFrom s t (h ∷ hs) e (a, o) (b, u) le le2 =
    (a, append-SortedFrom h.received t hs e o u b le2)

append-UpTo :
    (t v : ℕ) (hs : List TrafficHistory) (e : TrafficHistory)
    → UpTo t hs
    → t ≤ v
    → e.received ≤ v
    → UpTo v (hs ++ (e ∷ []))
append-UpTo t v [] e u le le2 = (le2, omega arith)
append-UpTo t v (h ∷ hs) e (b, u) le le2 = (omega arith, append-UpTo t v hs e u le le2)

-- The counter holds the entries of all, from the limit of the time `t` on.
record Holds (t : ℕ) (all : List TrafficHistory) (c : TrafficCounter) : Type 0 where
  history : c.history_list ≡ since (t - 1000 * c.seconds_to_store) all
  sorted : SortedFrom 0 all
  up_to : UpTo t all

-- The counter after an append.
abbrev after : Sample → TrafficCounter → TrafficCounter
after x c =
    let recent = since (x.now - 1000 * c.seconds_to_store) (c.history_list ++ (entry x ∷ [])) in
    record c {
      total = (c.total + x.count) % 2 ^ 64;
      current_speed = some (sum recent / c.seconds_to_store);
      history_list = recent;
    }

-- The list that `actualize` goes through in an append.
abbrev longer : Sample → TrafficCounter → List TrafficHistory
longer x c = c.history_list ++ (entry x ∷ [])

append-after :
    (x : Sample) (c : TrafficCounter)
    → SortedFrom 0 (longer x c)
    → 0 < c.seconds_to_store
    → 1000 * c.seconds_to_store ≤ x.now
    → x.now < 2 ^ 63
    → append x.now x.time x.count c
      ≡ some (sum (after x c).history_list / c.seconds_to_store, after x c)
unfolding append actualize
append-after x c o p b small =
    let limit = limit_at c.seconds_to_store x.now in
    let exact = limit_exact c.seconds_to_store x.now b small in
    let kept = count_loop-since limit 0 (longer x c) o in
    let recent = ap (λ (l : ℕ). since l (longer x c)) exact in
    ground (arith, kept.0 ∙ recent, kept.1 ∙ ap sum recent, p)

longer-SortedFrom :
    (t : ℕ) (all : List TrafficHistory) (x : Sample) (c : TrafficCounter)
    → Holds t all c
    → t ≤ x.time
    → SortedFrom 0 (longer x c)
longer-SortedFrom t all x c h le =
    let a = t - 1000 * c.seconds_to_store in
    let o : SortedFrom 0 c.history_list =
      subst (SortedFrom 0) (sym h.history) (since-SortedFrom a 0 all h.sorted) in
    let u : UpTo t c.history_list = subst (UpTo t) (sym h.history) (since-UpTo a t all h.up_to) in
    append-SortedFrom 0 t c.history_list (entry x) o u (omega arith) le

after-Holds :
    (t : ℕ) (all : List TrafficHistory) (x : Sample) (c : TrafficCounter)
    → Holds t all c
    → t ≤ x.time
    → x.time ≤ x.now
    → Holds x.now (all ++ (entry x ∷ [])) (after x c)
after-Holds t all x c h le le2 =
    let a = t - 1000 * c.seconds_to_store in
    let b = x.now - 1000 * c.seconds_to_store in
    let e = entry x ∷ [] in
    record {
      history =
          since-append b c.history_list e
          ∙ ap (λ (l : List TrafficHistory). since b l ++ since b e) h.history
          ∙ ap (λ (l : List TrafficHistory). l ++ since b e) (since-since a b all (omega arith))
          ∙ sym (since-append b all e);
      sorted = append-SortedFrom 0 t all (entry x) h.sorted h.up_to (omega arith) le;
      up_to = append-UpTo t x.now all (entry x) h.up_to (omega arith) le2;
    }

-- What is in the window after the appends.
abbrev pub window : ℕ → ℕ → List TrafficHistory → List Sample → List TrafficHistory
window s t all xs = since (last_now t xs - 1000 * s) (entries all xs)

abbrev pub speed_after : ℕ → Option ℕ → List TrafficHistory → List Sample → Option ℕ
speed_after s before shown [] = before
speed_after s before shown (x ∷ xs) = some (sum shown / s)

speed_after-window :
    (s t : ℕ) (before : Option ℕ) (all : List TrafficHistory) (xs : List Sample)
    → before ≡ some (sum (since (t - 1000 * s) all) / s)
    → speed_after s before (window s t all xs) xs ≡ some (sum (window s t all xs) / s)
unfolding entries
speed_after-window s t before all [] e = e
speed_after-window s t before all (x ∷ xs) e = refl

append_all-window :
    (xs : List Sample) (t : ℕ) (all : List TrafficHistory) (c : TrafficCounter)
    → Holds t all c
    → 0 < c.seconds_to_store
    → 1000 * c.seconds_to_store ≤ t
    → InOrder t xs
    → let s = c.seconds_to_store in
      (d : TrafficCounter) × (append_all xs c ≡ some d)
      × (d.history_list ≡ window s t all xs)
      × (d.current_speed ≡ speed_after s c.current_speed (window s t all xs) xs)
      × (d.total ≡ total_of c.total xs)
unfolding append_all entries
append_all-window [] t all c h p b o = (c, refl, h.history, refl, refl)
append_all-window (x ∷ xs) t all c h p b (le, le2, small, o) =
    let s = c.seconds_to_store in
    let step = append-after x c (longer-SortedFrom t all x c h le) p (omega arith) small in
    let all2 = all ++ (entry x ∷ []) in
    let now : Holds x.now all2 (after x c) = after-Holds t all x c h le le2 in
    let (d, e, hd, sd, td) = append_all-window xs x.now all2 (after x c) now p (omega arith) o in
    (
      d,
      ap
            (λ (r : Option (ℕ × TrafficCounter)). elim r as (λ y. Option TrafficCounter) [
              | none ↦ none
              | some z ↦ append_all xs (z.1)
            ])
            step
          ∙ e,
      hd,
      sd
          ∙ speed_after-window s x.now (after x c).current_speed all2 xs
              (ap (λ (l : List TrafficHistory). some (sum l / s)) now.history),
      td,
    )

-- After appends to a new counter, with times that do not go back and that start late enough, the history
-- is exactly the entries of the last seconds before the last append, in order; the speed is what they
-- count by the number of seconds, and the total is the sum of all counts, as quint64.
pub append_all-new :
    (s t : ℕ) (xs : List Sample)
    → 0 < s
    → 1000 * s ≤ t
    → InOrder t xs
    → (d : TrafficCounter) × (append_all xs (new s) ≡ some d)
      × (d.history_list ≡ window s t [] xs)
      × (d.current_speed ≡ speed_after s none (window s t [] xs) xs)
      × (d.total ≡ total_of 0 xs)
unfolding new
append_all-new s t xs p b o =
    let h : Holds t [] (new s) = record {
      history = refl;
      sorted = omega arith;
      up_to = omega arith;
    } in
    append_all-window xs t [] (new s) h p b o
