-- ===== src/Threads/DataFrames/StopAndWait.antt =====
-- A ThreadDataFrames sends one queued packet at a time (Threads/ThreadDataFrames.cpp).
use threader.Prelude.{
  ℕ, suc, ◌+◌, ◌<◌, ◌≡◌, ◌≢◌, refl, subst, sym, Option, none, some, List, [], ◌∷◌, ltb, arith,
  Bool-cases, Option-cases, inl, inr,
}
use threader.Frames.Packets.{Packet, Factory, set_packet_id, generate_next_packet_id}
use threader.Threads.DataFrames.{Thread, update, send_first, process_queue}
use threader.Threads.DataFrames.Waiting.{
  Rising, TailWaiting, Shape, IsQueue, IsValid, Waiting-update_below, Waiting-tail,
  send_packet-IsValid,
}

pub generate-bounds :
    (f : Factory)
    → f.packet_id < 0x1fffffff
    → ((generate_next_packet_id f).0 ≢ 0) × ((generate_next_packet_id f).1.packet_id < 0x1fffffff)
unfolding generate_next_packet_id
generate-bounds f h = ground arith

pub send_first-IsValid :
    (now : ℕ) (s : Thread) (rs : List ℕ)
    → s.queue ≡ some rs
    → s.current ≡ none
    → s.factory.packet_id < 0x1fffffff
    → Rising 0 rs s.next_ref
    → TailWaiting s.store rs
    → IsValid (send_first now s rs)
unfolding send_first
send_first-IsValid now s [] e c b h w = (
  b,
  subst (λ t. IsQueue s.store s.next_ref s.current t) (sym e)
      (subst (λ t. Rising 0 [] s.next_ref × Shape s.store t []) (sym c) (h, tt)),
)
send_first-IsValid now s (r ∷ rs) e c b h w =
    let g = generate_next_packet_id s.factory in
    let p = set_packet_id (s.store r) g.0 in
    send_packet-IsValid now
      (record s { factory = g.1; store = update s.store r p; current = some r }) (some p)
      (
        (generate-bounds s.factory b).1,
        subst (λ t. IsQueue (update s.store r p) s.next_ref (some r) t) (sym e)
            (
              h,
              (
                refl,
                ground (arith, generate-bounds s.factory b),
                Waiting-update_below s.store r p (suc r) rs s.next_ref (omega arith) h.1 w,
              ),
            ),
      )

-- With no current packet, and all but the first of the queue waiting, the queue is put in order.
pub process_queue-idle :
    (now : ℕ) (s : Thread) (rs : List ℕ)
    → s.queue ≡ some rs
    → s.current ≡ none
    → s.factory.packet_id < 0x1fffffff
    → Rising 0 rs s.next_ref
    → TailWaiting s.store rs
    → IsValid (process_queue now s)
unfolding process_queue
process_queue-idle now s rs e c b h w =
    rw (e, process_queue) (rw (c, process_queue) (send_first-IsValid now s rs e c b h w))

pub valid_queue :
    (s : Thread) (rs : List ℕ)
    → s.queue ≡ some rs
    → IsValid s
    → Rising 0 rs s.next_ref × Shape s.store s.current rs
valid_queue s rs e v = subst (λ t. IsQueue s.store s.next_ref s.current t) e v.1

pub Shape-tail :
    (store : ℕ → Packet) (c : Option ℕ) (rs : List ℕ) → Shape store c rs → TailWaiting store rs
Shape-tail store none rs w = Waiting-tail store rs w
Shape-tail store (some c) [] w = absurd w
Shape-tail store (some c) (r ∷ rs) w = w.2

pub process_queue-IsValid : (now : ℕ) (s : Thread) → IsValid s → IsValid (process_queue now s)
unfolding process_queue
process_queue-IsValid now s v = elim (Option-cases s.queue) [
  | inl e ↦ rw (e, process_queue) v
  | inr (rs, e) ↦ elim (Option-cases s.current) [
    | inl c ↦
        let q = valid_queue s rs e v in
        process_queue-idle now s rs e c v.0 q.0 (Shape-tail s.store s.current rs q.1)
    | inr (r, c) ↦
        rw (e, process_queue)
          (rw (c, process_queue)
            (elim (Bool-cases (ltb (s.last_packet_sent + 2000) now)) [
              | inl late ↦ rw late (send_packet-IsValid now s (some (s.store r)) v)
              | inr early ↦ rw early v
            ]))
  ]
]
