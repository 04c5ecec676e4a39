-- ===== src/Threads/Base/Refinement.antt =====
-- ThreadBase (Threads/ThreadBase.cpp) does what the abstract thread does.
use threader.Prelude.{
  ℕ, ◌≡◌, refl, ap, ◌∙◌, true, false, Option, none, some, List, [], ◌∷◌, arith, reverse, zero, suc,
  subst,
}
use threader.Threads.Messages
use threader.Threads.Messages.{QueueMessages}
use threader.Threads.Base.{
  Child, Base, new, register_and_start_child_thread, start_timer, stop_timer, stop_all_timers,
  slot_wake_up_thread, slot_terminate_child_threads, on_after_wait_events, process_messages,
  process_times, ask_child, finish, terminate_child_thread, terminate_loop, terminate_child_threads,
  end_of_run,
}
use threader.Threads.Base.View.{
  Call, posts, posts_list, wakes, starts, starts_timer, stops, stops_all, child_ends, destroys,
  waited, thread_ends, terminates, step, run, View, view, absorb, absorb_times, view_terminate,
  view_terminate_all, view_step, view_run,
}
use threader.Threads.Base.Posting.{
  IsIdle, Posted, post_message-Posted, post_messages-Posted, process_messages-view,
}
use threader.Threads.Base.Children.{stop_loop-map, stop_all_loop-map, destroy-view, destroy-IsIdle}

Posted-IsIdle : (b b1 : Base) (ms : List ℕ) (n : ℕ) → IsIdle b → Posted b ms n b1 → IsIdle b1
Posted-IsIdle b b1 ms n h p = record { free = p.free; none_left = p.left ∙ h.none_left }

-- An operation returns, is seen as this view, and leaves the thread idle.
abbrev Gives : Option Base → View → Type 0
Gives o v = (b : Base) × (o ≡ some b) × (view b ≡ v) × IsIdle b

-- An operation behind another.
then-Gives :
    (o : Option Base) (v : View) (f : Base → Option Base) (g : View → View)
    → Gives o v
    → ((b : Base) → IsIdle b → Gives (f b) (g (view b)))
    → Gives (elim o as (λ x. Option Base) [ none ↦ none | some b ↦ f b ]) (g v)
then-Gives o v f g (b, e, s, i) h =
    let (b1, e1, s1, i1) = h b i in
    (
      b1,
      ap (λ (x : Option Base). elim x as (λ y. Option Base) [ none ↦ none | some c ↦ f c ]) e ∙ e1,
      s1 ∙ ap g s,
      i1,
    )

process_messages-Gives :
    (react : ℕ → List ℕ) (b : Base)
    → IsIdle b
    → Gives (process_messages react b) (absorb react (view b))
unfolding view_step
process_messages-Gives react b h = process_messages-view react b h.free

process_times-Gives :
    (react : ℕ → List ℕ) (n : ℕ) (b : Base)
    → IsIdle b
    → Gives (process_times react n b) (absorb_times react n (view b))
unfolding process_times absorb_times
process_times-Gives react zero b h = (b, refl, refl, h)
process_times-Gives react (suc n) b h =
    then-Gives (process_messages react b) (absorb react (view b)) (process_times react n)
      (absorb_times react n) (process_messages-Gives react b h)
      (λ c i. process_times-Gives react n c i)

-- The children do not count for being idle.
with_children : (b : Base) (cs : List Child) → IsIdle b → IsIdle (record b { children = cs })
with_children b cs h = record { free = h.free; none_left = h.none_left }

terminate_child_thread-Gives :
    (react : ℕ → List ℕ) (rounds : Option ℕ) (n : ℕ) (b : Base)
    → IsIdle b
    → Gives (terminate_child_thread react rounds n b) (view_terminate react rounds n (view b))
unfolding terminate_child_thread view_terminate
terminate_child_thread-Gives react none n b h =
    process_messages-Gives react (record b { children = finish n b.children })
      (with_children b (finish n b.children) h)
terminate_child_thread-Gives react (some rounds) n b h =
    let asked = record b { children = ask_child n b.children } in
    then-Gives (process_times react rounds asked) (absorb_times react rounds (view asked))
      (λ c. process_messages react (record c { children = finish n c.children }))
      (λ v. absorb react (record v { children = finish n v.children }))
      (process_times-Gives react rounds asked (with_children b (ask_child n b.children) h))
      (λ c i.
        process_messages-Gives react (record c { children = finish n c.children })
          (with_children c (finish n c.children) i))

terminate_loop-Gives :
    (react : ℕ → List ℕ) (rounds : ℕ → Option ℕ) (cs : List Child) (b : Base)
    → IsIdle b
    → Gives (terminate_loop react rounds cs b) (view_terminate_all react rounds cs (view b))
unfolding terminate_loop view_terminate_all
terminate_loop-Gives react rounds [] b h = (b, refl, refl, h)
terminate_loop-Gives react rounds (c ∷ cs) b h =
    then-Gives (terminate_child_thread react (rounds c.number) c.number b)
      (view_terminate react (rounds c.number) c.number (view b)) (terminate_loop react rounds cs)
      (view_terminate_all react rounds cs)
      (terminate_child_thread-Gives react (rounds c.number) c.number b h)
      (λ d i. terminate_loop-Gives react rounds cs d i)

-- The end of `run` is seen as the ends of the children, from the last to the first, and one more
-- processing of messages.
end_of_run-Gives :
    (react : ℕ → List ℕ) (rounds : ℕ → Option ℕ) (b : Base)
    → IsIdle b
    → let v = view_terminate_all react rounds (reverse b.children) (view b) in
      (e : Base) × (end_of_run react rounds b ≡ some (reverse v.children, e))
      × (view e ≡ absorb react v)
      × IsIdle e
unfolding end_of_run terminate_child_threads
end_of_run-Gives react rounds b h =
    let (b1, e1, s1, i1) = terminate_loop-Gives react rounds (reverse b.children) b h in
    let (b2, e2, s2, i2) = process_messages-Gives react b1 i1 in
    (
      b2,
      ground (
        arith,
        e1,
        e2,
        ap {B = Option (List Child × Base)} (λ (v : View). some (reverse v.children, b2)) s1,
      ),
      s2 ∙ ap (absorb react) s1,
      i2,
    )

step-view :
    (react : ℕ → List ℕ) (c : Call) (b : Base)
    → IsIdle b
    → (b1 : Base) × (step react b c ≡ some b1) × (view b1 ≡ view_step react (view b) c) × IsIdle b1
unfolding step view_step register_and_start_child_thread start_timer stop_timer stop_all_timers
    slot_wake_up_thread slot_terminate_child_threads on_after_wait_events
step-view react (posts m) b h =
    let (b1, e, p) = post_message-Posted b m h.free in
    (b1, e, p.seen, Posted-IsIdle b b1 (m ∷ []) 1 h p)
step-view react (posts_list ms) b h =
    let (b1, e, p) = post_messages-Posted b ms h.free in
    (b1, e, p.seen, Posted-IsIdle b b1 ms 1 h p)
step-view react wakes b h = process_messages-view react b h.free
step-view react (starts c) b h = (_, refl, refl, record { free = h.free; none_left = h.none_left })
step-view react (starts_timer n name) b h =
    (_, refl, refl, record { free = h.free; none_left = h.none_left })
step-view react (stops name) b h = (
  _,
  refl,
  ap (λ (cs : List Child). record (view b) { children = cs }) (stop_loop-map name b.children),
  record { free = h.free; none_left = h.none_left },
)
step-view react stops_all b h = (
  _,
  refl,
  ap (λ (cs : List Child). record (view b) { children = cs }) (stop_all_loop-map b.children),
  record { free = h.free; none_left = h.none_left },
)
step-view react (child_ends n) b h =
    (_, refl, refl, record { free = h.free; none_left = h.none_left })
step-view react (destroys now) b h = (_, refl, destroy-view now true b, destroy-IsIdle now true b h)
step-view react (waited now) b h = (_, refl, destroy-view now false b, destroy-IsIdle now false b h)
step-view react thread_ends b h = (_, refl, refl, record { free = h.free; none_left = h.none_left })
step-view react (terminates rounds n) b h = terminate_child_thread-Gives react rounds n b h

run-IsIdle :
    (react : ℕ → List ℕ) (cs : List Call) (b : Base)
    → IsIdle b
    → (b1 : Base) × (run react b cs ≡ some b1) × (view b1 ≡ view_run react (view b) cs) × IsIdle b1
unfolding run view_run
run-IsIdle react [] b h = (b, refl, refl, h)
run-IsIdle react (c ∷ cs) b h =
    let (b1, e, s, i) = step-view react c b h in
    let (b2, e2, s2, i2) = run-IsIdle react cs b1 i in
    (
      b2,
      ap (λ (o : Option Base). elim o [ none ↦ none | some d ↦ run react d cs ]) e ∙ e2,
      s2 ∙ ap (λ v. view_run react v cs) s,
      i2,
    )

-- Whatever of these calls a new thread has, in any order, and then the end of its run, where a message
-- that is processed does nothing to this thread but let messages come, every call returns if each child
-- that is asked to end does so after some rounds of the loop that waits for it; and the thread does what
-- the abstract thread does. A wake-up processes exactly the messages that wait, once and in order; those
-- that come meanwhile wait for the next one. Each posting is one wake-up event unless the thread has
-- finished. The children that have ended are deleted, the last one first, at once or after the deadline.
-- While a child is asked to end, and once more after it has ended, messages are processed as by wake-ups.
-- The end of the run ends all children and then deletes them, the last one first. Between the calls the
-- mutex is free and no message is left to process.
pub run-view_run :
    (react : ℕ → List ℕ) (now : ℕ) (cs : List Call) (rounds : ℕ → Option ℕ)
    → let before = view_run react (view (new now)) cs in
      let v = view_terminate_all react rounds (reverse before.children) before in
      (b : Base) × (run react (new now) cs ≡ some b)
      × (view b ≡ before)
      × IsIdle b
      × ((e : Base) × (end_of_run react rounds b ≡ some (reverse v.children, e))
          × (view e ≡ absorb react v)
          × IsIdle e)
unfolding new Messages.new
run-view_run react now cs rounds =
    let (b, e, s, i) = run-IsIdle react cs (new now) (record { free = refl; none_left = refl }) in
    let ends = end_of_run-Gives react rounds b i in
    (
      b,
      e,
      s,
      i,
      subst
          (λ (x : View).
            let v = view_terminate_all react rounds (reverse x.children) x in
            (f : Base) × (end_of_run react rounds b ≡ some (reverse v.children, f))
            × (view f ≡ absorb react v)
            × IsIdle f)
          s ends,
    )
