-- ===== src/Frames/FrameQueue/Priority.antt =====
-- The two maxima of priority that QueueDataFrames keeps (Frames/QueueDataFrames.cpp).
use threader.Prelude.{
  ℕ, ◌+◌, ◌≤◌, Bool, Option, none, some, List, [], ◌∷◌, ◌++◌, map, ltb, arith, ◌==◌, if◌then◌else◌,
  length, Bool-cases, inl, inr,
}
use threader.Prelude.Int.{ℤ, negsuc}
use threader.Frames.RawData.{Frame, priority, set_packet_id}
use threader.Frames.FrameQueue.{
  Queue, ConnectionType, new, raise, raise_all, collect_appending_frame,
  collect_appending_frames_list, apply_collected_frames, prepare_loop, prepare_sending_list,
  ticket_loop, apply_ticket, reset, bind_thread, unbind_thread, set_use_queue, refuses, to_int,
}

-- No frame has a priority above `m`.
abbrev pub Below : ℕ → List Frame → Type 0
Below m [] = Unit {0}
Below m (f ∷ fs) = (priority f ≤ m) × Below m fs

pub Below-mono : (m n : ℕ) (fs : List Frame) → m ≤ n → Below m fs → Below n fs
Below-mono m n [] h b = tt
Below-mono m n (f ∷ fs) h b = (omega arith, Below-mono m n fs h b.1)

Below-append : (m : ℕ) (fs gs : List Frame) → Below m fs → Below m gs → Below m (fs ++ gs)
Below-append m [] gs h k = k
Below-append m (f ∷ fs) gs h k = (h.0, Below-append m fs gs h.1 k)

raise_bounds : (m : ℕ) (f : Frame) → (m ≤ raise m f) × (priority f ≤ raise m f)
raise_bounds m f = ground arith

raise_all-Below : (m : ℕ) (fs : List Frame) → (m ≤ raise_all m fs) × Below (raise_all m fs) fs
unfolding raise_all
raise_all-Below m [] = (omega arith, tt)
raise_all-Below m (f ∷ fs) =
    let ih = raise_all-Below (raise m f) fs in
    (omega (arith, ih.0, raise_bounds m f), (omega (arith, ih.0, raise_bounds m f), ih.1))

-- The maxima bound the priorities of the frames that they stand for.
pub record IsValid (q : Queue) : Type 0 where
  pub appending_pos : 1 ≤ q.appending_maximum_priority
  pub queued_pos : 1 ≤ q.queued_maximum_priority
  pub appending_below : Below q.appending_maximum_priority q.appended_frames
  pub queued_below : Below q.queued_maximum_priority q.queued_frames

prepare_loop-Below :
    (limit maximum : ℕ) (id : ℤ) (data_size m : ℕ) (fs : List Frame)
    → Below m fs
    → Below m (prepare_loop limit maximum id data_size fs).1
unfolding prepare_loop priority
prepare_loop-Below limit maximum id data_size m [] h = tt
prepare_loop-Below limit maximum id data_size m (f ∷ fs) h = ground (
  arith,
  prepare_loop-Below limit maximum id (data_size + (f.size + 4)) m fs h.1,
  prepare_loop-Below limit maximum id data_size m fs h.1,
)

ticket_loop-Below :
    (id : ℕ) (fs : List Frame)
    → (1 ≤ (ticket_loop id fs).2) × Below (ticket_loop id fs).2 (ticket_loop id fs).1
unfolding ticket_loop
ticket_loop-Below id [] = (omega arith, tt)
ticket_loop-Below id (f ∷ fs) =
    let ih = ticket_loop-Below id fs in
    let m = (ticket_loop id fs).2 in
    ground (arith, ih, raise_bounds m f, Below-mono m (raise m f) (ticket_loop id fs).1)

reset-Below :
    (m : ℕ) (fs : List Frame) → Below m fs → Below m (map (λ f. set_packet_id f (negsuc 0)) fs)
unfolding priority
reset-Below m [] h = tt
reset-Below m (f ∷ fs) h = (h.0, reset-Below m fs h.1)

-- The calls of the writing and of the reading thread.
pub data Call : Type 0 where
  collect : Option Frame → Call
  collect_list : List Frame → Call
  apply_collected : Bool → Call
  prepare : Option ℕ → ℕ → Call
  ticket : Option ℕ → ℕ → Bool → Call
  resets : Call
  bind unbind : Option ℕ → Call
  uses_queue : Bool → Call

unfoldable pub step : Queue → Call → Queue
step q (collect f) = (collect_appending_frame q f).1
step q (collect_list fs) = (collect_appending_frames_list q fs).1
step q (apply_collected wanted) = (apply_collected_frames q wanted).3
step q (prepare t id) = (prepare_sending_list q t id []).1
step q (ticket t id wanted) = (apply_ticket q t id wanted).2
step q resets = reset q
step q (bind t) = (bind_thread q t).1
step q (unbind t) = (unbind_thread q t).1
step q (uses_queue b) = set_use_queue q b

unfoldable pub run : Queue → List Call → Queue
run q [] = q
run q (c ∷ cs) = run (step q c) cs

merge-IsValid :
    (q : Queue) (wanted : Bool) → IsValid q → IsValid (apply_collected_frames q wanted).3
unfolding apply_collected_frames
merge-IsValid q wanted v = elim (Bool-cases (length q.appended_frames == 0)) [
  | inl e ↦ rw e v
  | inr e ↦ rw e (
      let a = q.appending_maximum_priority in
      let m = q.queued_maximum_priority in
      let top : ℕ = if ltb m a then a else m in
      let above : (m ≤ top) × (a ≤ top) × (1 ≤ top) = ground (arith, v.queued_pos) in
      record {
        appending_pos = omega arith;
        queued_pos = above.2;
        appending_below = tt;
        queued_below =
            Below-append top q.queued_frames q.appended_frames
              (Below-mono m top q.queued_frames above.0 v.queued_below)
              (Below-mono a top q.appended_frames above.1 v.appending_below);
      })
]

prepare-IsValid :
    (q : Queue) (t : Option ℕ) (id : ℕ) → IsValid q → IsValid (prepare_sending_list q t id []).1
unfolding prepare_sending_list
prepare-IsValid q t id v = elim (Bool-cases (refuses q t)) [
  | inl e ↦ rw e v
  | inr e ↦ rw e (record {
    appending_pos = v.appending_pos;
    queued_pos = v.queued_pos;
    appending_below = v.appending_below;
    queued_below =
        prepare_loop-Below q.maximum_packet_size q.queued_maximum_priority (to_int id) 0
          q.queued_maximum_priority q.queued_frames v.queued_below;
  })
]

ticket-IsValid :
    (q : Queue) (t : Option ℕ) (id : ℕ) (wanted : Bool)
    → IsValid q
    → IsValid (apply_ticket q t id wanted).2
unfolding apply_ticket
ticket-IsValid q t id wanted v = elim (Bool-cases (refuses q t)) [
  | inl e ↦ rw e v
  | inr e ↦ rw e (record {
    appending_pos = v.appending_pos;
    queued_pos = (ticket_loop-Below id q.queued_frames).0;
    appending_below = v.appending_below;
    queued_below = (ticket_loop-Below id q.queued_frames).1;
  })
]

step-IsValid : (q : Queue) (c : Call) → IsValid q → IsValid (step q c)
unfolding step collect_appending_frame collect_appending_frames_list reset bind_thread unbind_thread
    set_use_queue
step-IsValid q (collect none) v = v
step-IsValid q (collect (some f)) v =
    let m = q.appending_maximum_priority in
    record {
      appending_pos = omega (arith, raise_bounds m f, v.appending_pos);
      queued_pos = v.queued_pos;
      appending_below =
          Below-append (raise m f) q.appended_frames (f ∷ [])
            (Below-mono m (raise m f) q.appended_frames (raise_bounds m f).0 v.appending_below)
            ((raise_bounds m f).1, tt);
      queued_below = v.queued_below;
    }
step-IsValid q (collect_list fs) v =
    let m = q.appending_maximum_priority in
    let ih = raise_all-Below m (q.appended_frames ++ fs) in
    record {
      appending_pos = omega (arith, ih.0, v.appending_pos);
      queued_pos = v.queued_pos;
      appending_below = ih.1;
      queued_below = v.queued_below;
    }
step-IsValid q (apply_collected wanted) v = merge-IsValid q wanted v
step-IsValid q (prepare t id) v = prepare-IsValid q t id v
step-IsValid q (ticket t id wanted) v = ticket-IsValid q t id wanted v
step-IsValid q resets v = record {
  appending_pos = v.appending_pos;
  queued_pos = v.queued_pos;
  appending_below = v.appending_below;
  queued_below = reset-Below q.queued_maximum_priority q.queued_frames v.queued_below;
}
step-IsValid q (bind none) v = v
step-IsValid q (bind (some t)) v = record {
  appending_pos = v.appending_pos;
  queued_pos = v.queued_pos;
  appending_below = v.appending_below;
  queued_below = v.queued_below;
}
step-IsValid q (unbind none) v = v
step-IsValid q (unbind (some t)) v = ground arith
step-IsValid q (uses_queue b) v = record {
  appending_pos = v.appending_pos;
  queued_pos = v.queued_pos;
  appending_below = v.appending_below;
  queued_below = v.queued_below;
}

pub run-IsValid : (q : Queue) (cs : List Call) → IsValid q → IsValid (run q cs)
unfolding run
run-IsValid q [] v = v
run-IsValid q (c ∷ cs) v = run-IsValid (step q c) cs (step-IsValid q c v)

-- After any calls on a new queue no waiting frame has a priority above the maximum that the queue
-- keeps for its list, and both maxima are at least 1.
pub run-new-IsValid :
    (alias : List ℕ) (kind : ConnectionType) (use_queue : Bool) (cs : List Call)
    → IsValid (run (new alias kind use_queue) cs)
unfolding new
run-new-IsValid alias kind use_queue cs = run-IsValid _ cs (record {
  appending_pos = omega arith;
  queued_pos = omega arith;
  appending_below = tt;
  queued_below = tt;
})
