-- ===== src/Threads/Base/Children.antt =====
-- Stopping timers and deleting child threads (Threads/ThreadBase.cpp), seen from outside.
use threader.Prelude.{
  ℕ, ◌+◌, ◌≡◌, refl, ap, ◌∙◌, sym, Bool, true, false, ◌||◌, List, [], ◌∷◌, ◌++◌, leb, if◌then◌else◌,
  map, reverse, reverse_aux, append_assoc, arith, inl, inr, Bool-cases,
}
use threader.Threads.Base.{
  Child, Base, has_name, stop_loop, stop_all_loop, destroy_loop, destroy_terminated_child_threads,
}
use threader.Threads.Base.View.{view, alive, ended, ask, is_timer, bury}
use threader.Threads.Base.Posting.{IsIdle}

pub stop_loop-map :
    (name : ℕ) (cs : List Child)
    → (stop_loop name cs).1 ≡ map (λ c. if has_name c.timer name then ask c else c) cs
unfolding stop_loop
stop_loop-map name [] = refl
stop_loop-map name (c ∷ cs) = ground (arith, stop_loop-map name cs)

pub stop_all_loop-map :
    (cs : List Child) → (stop_all_loop cs).1 ≡ map (λ c. if is_timer c.timer then ask c else c) cs
unfolding stop_all_loop
stop_all_loop-map [] = refl
stop_all_loop-map (c ∷ cs) = ground (arith, stop_all_loop-map cs)

reverse_aux-append : {A : Type 0} → (xs ys : List A) → reverse_aux xs ys ≡ reverse_aux xs [] ++ ys
reverse_aux-append [] ys = refl
reverse_aux-append (x ∷ xs) ys =
    reverse_aux-append xs (x ∷ ys)
    ∙ sym (append_assoc (reverse_aux xs []) (x ∷ []) ys)
    ∙ ap (λ zs. zs ++ ys) (sym (reverse_aux-append xs (x ∷ [])))

destroy_loop-alive : (cs : List Child) → destroy_loop cs ≡ (reverse (ended cs), alive cs)
unfolding destroy_loop ended alive
destroy_loop-alive [] = refl
destroy_loop-alive (c ∷ cs) =
    let ih = destroy_loop-alive cs in
    elim (Bool-cases c.finished) [
      | inl e ↦ rw (e, ih) (ap (λ g. (g, alive cs)) (sym (reverse_aux-append (ended cs) (_ ∷ []))))
      | inr e ↦ rw (e, ih) refl
    ]

pub destroy-view :
    (now : ℕ) (right_now : Bool) (b : Base)
    → view (destroy_terminated_child_threads now right_now b)
      ≡ (if right_now || leb b.next_destroy now then bury now (view b) else view b)
unfolding destroy_terminated_child_threads
destroy-view now right_now b =
    let loop = destroy_loop b.children in
    elim (right_now || leb b.next_destroy now)
      as (λ x.
        view (
          if x
          then record b {
            children = loop.1;
            destroyed = b.destroyed ++ loop.0;
            next_destroy = now + 1000;
          }
          else b)
        ≡ (if x then bury now (view b) else view b)) [
          | true ↦
              ap
                (λ (r : List Child × List Child). record (view b) {
                  children = r.1;
                  destroyed = b.destroyed ++ r.0;
                  deadline = now + 1000;
                })
                (destroy_loop-alive b.children)
          | false ↦ refl
        ]

pub destroy-IsIdle :
    (now : ℕ) (right_now : Bool) (b : Base)
    → IsIdle b
    → IsIdle (destroy_terminated_child_threads now right_now b)
unfolding destroy_terminated_child_threads
destroy-IsIdle now right_now b h =
    let loop = destroy_loop b.children in
    elim (right_now || leb b.next_destroy now)
      as (λ x. IsIdle (
        if x
        then record b {
          children = loop.1;
          destroyed = b.destroyed ++ loop.0;
          next_destroy = now + 1000;
        }
        else b)) [ true ↦ record { free = h.free; none_left = h.none_left } | false ↦ h ]
