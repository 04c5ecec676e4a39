-- ===== src/Threads/DataFrames/Calls.antt =====
-- Every call of a ThreadDataFrames keeps the order of its queue (Threads/ThreadDataFrames.cpp).
use threader.Prelude.{
  ℕ, suc, ◌+◌, ◌<◌, ◌≡◌, refl, subst, sym, Bool, true, false, Option, none, some, List, [], ◌∷◌,
  ◌++◌, ltb, leb, arith, ◌==◌, if◌then◌else◌, length, take, if_either, Bool-cases, Option-cases,
  inl, inr,
}
use threader.Prelude.Bytes.{le_value}
use threader.Frames.Packets.{
  Packet, Factory, new, set_packet_id, build_packet, build_packet_from_frame,
  generate_next_packet_id, build_packet_ticket,
}
use threader.Prelude.Int.{ℤ}
use threader.Threads.DataFrames.{
  Thread, queued, applied, frames_received, update, note, remove_packets, reset_packets, start,
  on_connected, process_queue, apply_ticket, enqueue, send_direct, send_built, send_frame,
  reset_queue, check_packet_id, acknowledge, deliver, receive_frames, receive_ticket,
  on_packet_received,
}
use threader.Threads.DataFrames.Waiting.{
  Waiting, Rising, Shape, IsQueue, IsValid, Rising-append, Rising-bound, Waiting-update_above,
  Waiting-append, remove-Rising, remove-TailWaiting, send_packet-IsValid,
}
use threader.Threads.DataFrames.StopAndWait.{
  process_queue-idle, process_queue-IsValid, valid_queue, Shape-tail, generate-bounds,
}

-- Where the loop removes nothing the list is as it was.
pub remove-none :
    (store : ℕ → Packet) (id : ℕ) (rs : List ℕ)
    → (remove_packets store id rs).0 ≡ 0
    → (remove_packets store id rs).1 ≡ rs
unfolding remove_packets
remove-none store id [] h = refl
remove-none store id (r ∷ rs) h = ground (arith, remove-none store id rs)

apply_ticket-IsValid :
    (now : ℕ) (s : Thread) (id : ℕ) → IsValid s → IsValid (apply_ticket now s id).1
unfolding apply_ticket
apply_ticket-IsValid now s id v = elim (Option-cases s.queue) [
  | inl e ↦ rw (e, apply_ticket) v
  | inr (rs, e) ↦
      let q = valid_queue s rs e v in
      let r = remove_packets s.store id rs in
      rw (e, apply_ticket)
        (elim (Bool-cases (ltb 0 r.0)) [
          | inl some_removed ↦ rw some_removed (
              process_queue-idle now
                (record s { queue = some r.1; events = applied id ∷ s.events; current = none }) r.1
                refl refl v.0 (remove-Rising s.store id 0 rs s.next_ref q.0)
                (remove-TailWaiting s.store id rs (Shape-tail s.store s.current rs q.1)))
          | inr none_removed ↦ rw none_removed (
            v.0,
            subst (λ t. IsQueue s.store s.next_ref s.current (some t))
                (sym (remove-none s.store id rs (ground (arith, none_removed)))) q,
          )
        ])
]

Shape-append :
    (store : ℕ → Packet) (c : Option ℕ) (rs : List ℕ) (hi : ℕ) (p : Packet)
    → p.header.packet_id ≡ 0
    → Rising 0 rs hi
    → Shape store c rs
    → Shape (update store hi p) c (rs ++ (hi ∷ []))
Shape-append store none rs hi p e h w =
    Waiting-append (update store hi p) rs hi (Waiting-update_above store p 0 rs hi h w)
      (ground (arith, e))
Shape-append store (some c) [] hi p e h w = absurd w
Shape-append store (some c) (r ∷ rs) hi p e h w =
    let above : r < hi = Rising-bound (suc r) rs hi h.1 in
    (
      w.0,
      ground (arith, above, w.1),
      Waiting-append (update store hi p) rs hi (Waiting-update_above store p (suc r) rs hi h.1 w.2)
          (ground (arith, e)),
    )

enqueue-IsValid :
    (now : ℕ) (s : Thread) (rs : List ℕ) (p : Packet)
    → s.queue ≡ some rs
    → p.header.packet_id ≡ 0
    → IsValid s
    → IsValid (enqueue now s rs p)
unfolding enqueue
enqueue-IsValid now s rs p e z v =
    let q = valid_queue s rs e v in
    process_queue-IsValid now
      (record s {
        store = update s.store s.next_ref p;
        next_ref = s.next_ref + 1;
        queue = some (rs ++ (s.next_ref ∷ []));
        events = queued p ∷ s.events;
      })
      (
        v.0,
        (
          Rising-append 0 rs s.next_ref q.0,
          Shape-append s.store s.current rs s.next_ref p z q.0 q.1,
        ),
      )

-- Without a number a packet is built, and the factory stays as it was.
built_lem :
    (f : Factory) (b : Bool) (body : List ℕ)
    → (p : Packet) × (build_packet_from_frame f (some b) body false ≡ (some p, f))
      × (p.header.packet_id ≡ 0)
unfolding build_packet_from_frame build_packet
built_lem f b body = (_, refl, refl)

send_direct-IsValid :
    (now : ℕ) (s : Thread) (p : Packet) → IsValid s → IsValid (send_direct now s p)
unfolding send_direct
send_direct-IsValid now s p v =
    send_packet-IsValid now (record s { factory = (generate_next_packet_id s.factory).1 })
      (some (set_packet_id p (generate_next_packet_id s.factory).0))
      ((generate-bounds s.factory v.0).1, v.1)

send_built-IsValid :
    (now : ℕ) (s : Thread) (b : Bool) (p : Packet)
    → p.header.packet_id ≡ 0
    → IsValid s
    → IsValid (send_built now s b p)
unfolding send_built
send_built-IsValid now s b p z v = elim (Option-cases s.queue) [
  | inl e ↦ rw (e, send_built) (send_direct-IsValid now s p v)
  | inr (rs, e) ↦
      rw (e, send_built)
        (elim (Bool-cases b) [
          | inl t ↦ rw t (enqueue-IsValid now s rs p e z v)
          | inr t ↦ rw t (send_direct-IsValid now s p v)
        ])
]

send_frame-IsValid :
    (now : ℕ) (s : Thread) (t : Option Bool) (body : List ℕ)
    → IsValid s
    → IsValid (send_frame now s t body).1
unfolding send_frame build_packet_from_frame build_packet
send_frame-IsValid now s none body v = v
send_frame-IsValid now s (some b) body v = send_built-IsValid now s b _ refl v

zero_one :
    (store : ℕ → Packet) (r : ℕ) (zs : List ℕ)
    → Waiting store zs
    → Waiting (update store r (set_packet_id (store r) 0)) zs
zero_one store r [] w = tt
zero_one store r (z ∷ zs) w = (ground (arith, w.0), zero_one store r zs w.1)

reset-Waiting :
    (store : ℕ → Packet) (rs zs : List ℕ) → Waiting store zs → Waiting (reset_packets store rs) zs
unfolding reset_packets
reset-Waiting store [] zs w = w
reset-Waiting store (r ∷ rs) zs w =
    reset-Waiting (update store r (set_packet_id (store r) 0)) rs zs (zero_one store r zs w)

reset_all : (store : ℕ → Packet) (rs : List ℕ) → Waiting (reset_packets store rs) rs
unfolding reset_packets
reset_all store [] = tt
reset_all store (r ∷ rs) =
    let store1 = update store r (set_packet_id (store r) 0) in
    ((reset-Waiting store1 rs (r ∷ []) (ground arith, tt)).0, reset_all store1 rs)

reset_queue-IsValid : (s : Thread) → IsValid s → IsValid (reset_queue s)
unfolding reset_queue
reset_queue-IsValid s v = elim (Option-cases s.queue) [
  | inl e ↦ rw (e, reset_queue) (v.0, subst (λ t. IsQueue s.store s.next_ref none t) (sym e) refl)
  | inr (rs, e) ↦
      let q = valid_queue s rs e v in
      rw (e, reset_queue)
        (
          v.0,
          subst (λ t. IsQueue (reset_packets s.store rs) s.next_ref none t) (sym e)
              (q.0, reset_all s.store rs),
        )
]

-- A received packet's number is noted beside the queue.
check_packet_id-IsValid : (s : Thread) (id : ℕ) → IsValid s → IsValid (check_packet_id s id)
unfolding check_packet_id
check_packet_id-IsValid s id v = ground arith

ticket_factory :
    (f : Factory) (id : ℕ)
    → f.packet_id < 0x1fffffff
    → (build_packet_ticket f id).1.packet_id < 0x1fffffff
unfolding build_packet_ticket
ticket_factory f id h = ground (arith, generate-bounds f h)

acknowledge-IsValid : (now : ℕ) (s : Thread) (id : ℕ) → IsValid s → IsValid (acknowledge now s id)
unfolding acknowledge
acknowledge-IsValid now s id v =
    let built = build_packet_ticket s.factory id in
    send_packet-IsValid now (record s { factory = built.1 }) built.0
      (ticket_factory s.factory id v.0, v.1)

deliver-IsValid :
    (s : Thread) (id : ℕ) (frames : Option ℕ) → IsValid s → IsValid (deliver s id frames).1
unfolding deliver
deliver-IsValid s id none v = v
deliver-IsValid s id (some n) v =
    if_either {A = Bool × Thread} (λ r. IsValid r.1) (n == 0) (false, s)
      (true, note (frames_received n id) s) v v

receive_frames-IsValid :
    (now : ℕ) (s : Thread) (p : Packet) (frames : Option ℕ)
    → IsValid s
    → IsValid (receive_frames now s p frames).1
unfolding receive_frames
receive_frames-IsValid now s p frames v =
    let s1 = acknowledge now s p.header.packet_id in
    let w = acknowledge-IsValid now s p.header.packet_id v in
    if_either {A = Bool × Thread} (λ r. IsValid r.1) (p.header.packet_type == 0)
      (deliver s1 p.header.packet_id frames) (true, s1)
      (deliver-IsValid s1 p.header.packet_id frames w) w

receive_ticket-IsValid :
    (now : ℕ) (s : Thread) (body : List ℕ) → IsValid s → IsValid (receive_ticket now s body).1
unfolding receive_ticket
receive_ticket-IsValid now s body v =
    if_either {A = Bool × Thread} (λ r. IsValid r.1) (ltb (length body) 4) (false, s)
      (true, (apply_ticket now s (le_value (take 4 body))).1) v
      (apply_ticket-IsValid now s (le_value (take 4 body)) v)

on_packet_received-IsValid :
    (now : ℕ) (s : Thread) (p : Packet) (frames : Option ℕ)
    → IsValid s
    → IsValid (on_packet_received now s p frames).1
unfolding on_packet_received
on_packet_received-IsValid now s p frames v =
    let s1 = check_packet_id s p.header.packet_id in
    let kind = p.header.packet_type in
    let w = check_packet_id-IsValid s p.header.packet_id v in
    let other : Bool × Thread = if kind == 2 then receive_ticket now s1 p.body else (false, s1) in
    if_either {A = Bool × Thread} (λ r. IsValid r.1) (leb kind 1) (receive_frames now s1 p frames)
      other (receive_frames-IsValid now s1 p frames w)
      (if_either {A = Bool × Thread} (λ r. IsValid r.1) (kind == 2) (receive_ticket now s1 p.body)
        (false, s1) (receive_ticket-IsValid now s1 p.body w) w)

-- What a thread is asked to do, and when.
pub data Call : Type 0 where
  connects disconnects resets : Call
  sends : ℕ → Option Bool → List ℕ → Call
  processes : ℕ → Call
  receives : ℕ → Packet → Option ℕ → Call

unfoldable pub step : Thread → Call → Thread
step s connects = on_connected (record s { is_connected = true })
step s disconnects = record s { is_connected = false }
step s resets = reset_queue s
step s (sends now needs_ticket body) = (send_frame now s needs_ticket body).1
step s (processes now) = process_queue now s
step s (receives now p frames) = (on_packet_received now s p frames).1

unfoldable pub run : Thread → List Call → Thread
run s [] = s
run s (c ∷ cs) = run (step s c) cs

pub step-IsValid : (s : Thread) (c : Call) → IsValid s → IsValid (step s c)
unfolding step on_connected
step-IsValid s connects v = v
step-IsValid s disconnects v = v
step-IsValid s resets v = reset_queue-IsValid s v
step-IsValid s (sends now t body) v = send_frame-IsValid now s t body v
step-IsValid s (processes now) v = process_queue-IsValid now s v
step-IsValid s (receives now p frames) v = on_packet_received-IsValid now s p frames v

pub run-IsValid : (s : Thread) (cs : List Call) → IsValid s → IsValid (run s cs)
unfolding run
run-IsValid s [] v = v
run-IsValid s (c ∷ cs) v = run-IsValid (step s c) cs (step-IsValid s c v)

-- After any calls on a new thread, with packets received whatever they hold: no packet is queued
-- twice, a current packet is the first of the queue and has a number, and every other queued packet
-- waits without one, so at most one queued packet is under way at a time.
pub run-start-IsValid :
    (unset : ℤ) (store : ℕ → Packet) (use_queue connected : Bool) (now : ℕ) (cs : List Call)
    → IsValid (run (start unset store use_queue connected now) cs)
unfolding start new
run-start-IsValid unset store true connected now cs =
    run-IsValid _ cs (omega arith, (omega arith, tt))
run-start-IsValid unset store false connected now cs = run-IsValid _ cs (omega arith, refl)
