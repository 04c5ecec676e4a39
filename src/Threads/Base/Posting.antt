-- ===== src/Threads/Base/Posting.antt =====
-- Posting and processing messages (Threads/ThreadBase.cpp), seen from outside.
use threader.Prelude.{
  ℕ, ◌+◌, Bool, if◌then◌else◌, arith, length-append, ◌≡◌, refl, ap, ap₂, ◌∙◌, sym, false, Option,
  none, some, List, [], ◌∷◌, ◌++◌, length, append_assoc, append-nil,
}
use threader.Threads.Messages
use threader.Threads.Messages.{QueueMessages}
use threader.Threads.Messages.Fifo.{unlocked}
use threader.Threads.Base.{
  Base, signal_wake_up, post_message, post_messages, post_all, process_loop, process_messages,
}
use threader.Threads.Base.View.{wakes, View, view, told, reactions, view_step}

-- The mutex is free, and no message is left of those taken to be processed.
pub record IsIdle (b : Base) : Type 0 where
  pub free : b.queue.locked ≡ false
  pub none_left : b.messages_left ≡ 0

unlocked_lem : (q : QueueMessages) → q.locked ≡ false → q ≡ unlocked q.queue
unlocked_lem q h = ap (λ l. record { queue = q.queue; locked = l }) h

-- What posting leaves, with so many wake-up events.
pub record Posted (b : Base) (ms : List ℕ) (n : ℕ) (b1 : Base) : Type 0 where
  pub seen : view b1 ≡ told ms n (view b)
  pub free : b1.queue.locked ≡ false
  pub left : b1.messages_left ≡ b.messages_left

pub post_message-Posted :
    (b : Base) (m : ℕ)
    → b.queue.locked ≡ false
    → (b1 : Base) × (post_message b m ≡ some b1) × Posted b (m ∷ []) 1 b1
unfolding post_message Messages.enqueue signal_wake_up
post_message-Posted b m h = (
  signal_wake_up (record b { queue = unlocked (b.queue.queue ++ (m ∷ [])) }),
  ap
      (λ q. elim (Messages.enqueue m q) [
        | none ↦ none
        | some r ↦ some (signal_wake_up (record b { queue = r.1 }))
      ])
      (unlocked_lem b.queue h),
  record { seen = refl; free = refl; left = refl },
)

pub post_messages-Posted :
    (b : Base) (ms : List ℕ)
    → b.queue.locked ≡ false
    → (b1 : Base) × (post_messages b ms ≡ some b1) × Posted b ms 1 b1
unfolding post_messages Messages.enqueue_list signal_wake_up
post_messages-Posted b ms h = (
  signal_wake_up (record b { queue = unlocked (b.queue.queue ++ ms) }),
  ap
      (λ q. elim (Messages.enqueue_list ms q) [
        | none ↦ none
        | some r ↦ some (signal_wake_up (record b { queue = r.1 }))
      ])
      (unlocked_lem b.queue h),
  record { seen = refl; free = refl; left = refl },
)

counted :
    (f : Bool) (w a c : ℕ)
    → (if f then (if f then w else w + a) else (if f then w else w + a) + c)
      ≡ (if f then w else w + (a + c))
counted f w a c = ground arith

told_nil : (v : View) → told [] 0 v ≡ v
told_nil v =
    ap₂ (λ (x : List ℕ) (y : ℕ). record v { waiting = x; wake_ups = y }) (append-nil v.waiting)
      (ground arith)

told-told :
    (xs ys : List ℕ) (a c : ℕ) (v : View) → told ys c (told xs a v) ≡ told (xs ++ ys) (a + c) v
told-told xs ys a c v =
    ap₂ (λ (x : List ℕ) (y : ℕ). record v { waiting = x; wake_ups = y })
      (append_assoc v.waiting xs ys) (counted v.finished v.wake_ups a c)

post_all-Posted :
    (b : Base) (ms : List ℕ)
    → b.queue.locked ≡ false
    → (b1 : Base) × (post_all b ms ≡ some b1) × Posted b ms (length ms) b1
unfolding post_all
post_all-Posted b [] h = (b, refl, record { seen = sym (told_nil (view b)); free = h; left = refl })
post_all-Posted b (m ∷ ms) h =
    let (b1, e, p) = post_message-Posted b m h in
    let (b2, e2, p2) = post_all-Posted b1 ms p.free in
    (
      b2,
      ap (λ (o : Option Base). elim o [ none ↦ none | some c ↦ post_all c ms ]) e ∙ e2,
      record {
        seen =
            p2.seen
            ∙ ap (told ms (length ms)) p.seen
            ∙ told-told (m ∷ []) ms 1 (length ms) (view b)
            ∙ ap (λ n. told (m ∷ ms) n (view b)) (omega arith);
        free = p2.free;
        left = p2.left ∙ p.left;
      },
    )

abbrev handle : (ℕ → List ℕ) → List ℕ → View → View
handle react ms v = record v {
  handled = v.handled ++ ms;
  waiting = v.waiting ++ reactions react ms;
  wake_ups = if v.finished then v.wake_ups else v.wake_ups + length (reactions react ms);
}

handle-told :
    (react : ℕ → List ℕ) (m : ℕ) (ms : List ℕ) (v : View)
    → handle react ms
        (told (react m) (length (react m)) (record v { handled = v.handled ++ (m ∷ []) }))
      ≡ handle react (m ∷ ms) v
unfolding reactions
handle-told react m ms v =
    let rest = reactions react ms in
    ap (λ (x : View). record x { handled = (v.handled ++ (m ∷ [])) ++ ms })
      (told-told (react m) rest (length (react m)) (length rest) v)
    ∙ ap₂ (λ (x : List ℕ) (n : ℕ). record (told (react m ++ rest) n v) { handled = x })
        (append_assoc v.handled (m ∷ []) ms) (sym (length-append (react m) rest))

process_loop-view :
    (react : ℕ → List ℕ) (ms : List ℕ) (b : Base)
    → b.queue.locked ≡ false
    → b.messages_left ≡ length ms
    → (b1 : Base) × (process_loop react b ms ≡ some b1)
      × (view b1 ≡ handle react ms (view b))
      × IsIdle b1
unfolding process_loop reactions
process_loop-view react [] b h k = (
  b,
  refl,
  ap (λ (x : List ℕ). record (view b) { handled = x }) (sym (append-nil b.processed))
      ∙ ap (λ (v : View). record v { handled = b.processed ++ [] }) (sym (told_nil (view b))),
  record { free = h; none_left = k },
)
process_loop-view react (m ∷ ms) b h k =
    let b0 = record b { messages_left = length ms; processed = b.processed ++ (m ∷ []) } in
    let (b1, e, p) = post_all-Posted b0 (react m) h in
    let (b2, e2, s, i) = process_loop-view react ms b1 p.free p.left in
    (
      b2,
      ap (λ (o : Option Base). elim o [ none ↦ none | some c ↦ process_loop react c ms ]) e ∙ e2,
      s ∙ ap (handle react ms) p.seen ∙ handle-told react m ms (view b),
      i,
    )

pub process_messages-view :
    (react : ℕ → List ℕ) (b : Base)
    → b.queue.locked ≡ false
    → (b1 : Base) × (process_messages react b ≡ some b1)
      × (view b1 ≡ view_step react (view b) wakes)
      × IsIdle b1
unfolding process_messages Messages.dequeue_all view_step
process_messages-view react b h =
    let ms = b.queue.queue in
    let b0 = record b { queue = unlocked []; messages_left = length ms } in
    let (b1, e, s, i) = process_loop-view react ms b0 refl refl in
    (
      b1,
      ap
            (λ q. elim (Messages.dequeue_all q) [
              | none ↦ none
              | some r ↦
                  process_loop react (record b { queue = r.1; messages_left = length r.0 }) r.0
            ])
            (unlocked_lem b.queue h)
          ∙ e,
      s,
      i,
    )
