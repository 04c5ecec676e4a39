-- ===== src/Threads/DataFrames/Acknowledge.antt =====
-- What a ticket makes of the queue of a ThreadDataFrames (Threads/ThreadDataFrames.cpp).
use threader.Prelude.{
  ℕ, suc, ◌+◌, ◌≡◌, ◌≢◌, refl, ap, ap₂, subst, ◌∙◌, sym, Option, none, some, List, [], ◌∷◌, ltb,
  arith, if◌then◌else◌, length,
}
use threader.Prelude.Int.{pos}
use threader.Frames.Packets.{Packet}
use threader.Threads.DataFrames.{
  Thread, applied, id_of, remove_packets, send_packet, send_first, process_queue, apply_ticket,
}
use threader.Threads.DataFrames.Waiting.{Waiting, Shape, IsValid}
use threader.Threads.DataFrames.StopAndWait.{valid_queue}

remove-Waiting :
    (store : ℕ → Packet) (id : ℕ) (rs : List ℕ)
    → id ≢ 0
    → Waiting store rs
    → remove_packets store id rs ≡ (0, rs)
unfolding remove_packets
remove-Waiting store id [] h w = refl
remove-Waiting store id (r ∷ rs) h w = ground (arith, remove-Waiting store id rs h w.1)

remove-Waiting_zero :
    (store : ℕ → Packet) (rs : List ℕ)
    → Waiting store rs
    → remove_packets store 0 rs ≡ (length rs, [])
unfolding remove_packets
remove-Waiting_zero store [] w = refl
remove-Waiting_zero store (r ∷ rs) w = ground (arith, remove-Waiting_zero store rs w.1)

remove-hit :
    (store : ℕ → Packet) (id r : ℕ) (rs rest : List ℕ) (n : ℕ)
    → id_of store r ≡ id
    → remove_packets store id rs ≡ (n, rest)
    → remove_packets store id (r ∷ rs) ≡ (n + 1, rest)
unfolding remove_packets
remove-hit store id r rs rest n e h = ground arith

remove-miss :
    (store : ℕ → Packet) (id r : ℕ) (rs rest : List ℕ) (n : ℕ)
    → id_of store r ≢ id
    → remove_packets store id rs ≡ (n, rest)
    → remove_packets store id (r ∷ rs) ≡ (n, r ∷ rest)
unfolding remove_packets
remove-miss store id r rs rest n e h = ground arith

-- The reference at the front.
abbrev pub first : List ℕ → Option ℕ
first [] = none
first (r ∷ rs) = some r

send_first-fields :
    (now : ℕ) (s : Thread) (rs : List ℕ)
    → s.current ≡ none
    → ((send_first now s rs).queue ≡ s.queue) × ((send_first now s rs).current ≡ first rs)
unfolding send_first send_packet
send_first-fields now s [] c = (refl, c)
send_first-fields now s (r ∷ rs) c = ground arith

process_queue-fields :
    (now : ℕ) (s : Thread) (rs : List ℕ)
    → s.queue ≡ some rs
    → s.current ≡ none
    → ((process_queue now s).queue ≡ some rs) × ((process_queue now s).current ≡ first rs)
unfolding process_queue
process_queue-fields now s rs e c =
    let f = send_first-fields now s rs c in
    let busy : ℕ → Thread = λ r.
      if ltb (s.last_packet_sent + 2000) now then (send_packet now s (some (s.store r))).1 else s in
    let idle : (q : Option (List ℕ)) → Option ℕ → Thread = λ q t. elim q [
      | none ↦ s
      | some ps ↦ elim t [ none ↦ send_first now s ps | some r ↦ busy r ]
    ] in
    let g : process_queue now s ≡ send_first now s rs = ap₂ idle e c in
    (ap (λ t. t.queue) g ∙ f.0 ∙ e, ap (λ t. t.current) g ∙ f.1)

-- A ticket that takes packets out of the queue.
ticket-removes :
    (now : ℕ) (s : Thread) (id : ℕ) (rs rest : List ℕ) (n : ℕ)
    → s.queue ≡ some rs
    → remove_packets s.store id rs ≡ (suc n, rest)
    → ((apply_ticket now s id).0 ≡ pos (suc n))
      × ((apply_ticket now s id).1.queue ≡ some rest)
      × ((apply_ticket now s id).1.current ≡ first rest)
unfolding apply_ticket
ticket-removes now s id rs rest n e h =
    let s1 : Thread = record s {
      queue = some rest;
      events = applied id ∷ s.events;
      current = none;
    } in
    let g : apply_ticket now s id ≡ (pos (suc n), process_queue now s1) =
      rw (e, apply_ticket) (rw h (ground arith)) in
    let f = process_queue-fields now s1 rest refl refl in
    (ap (λ t. t.0) g, ap (λ t. t.1.queue) g ∙ f.0, ap (λ t. t.1.current) g ∙ f.1)

-- In a valid state with the current packet first in the queue, its ticket takes exactly this packet
-- out of the queue, and the next queued packet, if there is one, becomes the current one.
pub apply_ticket-current :
    (now : ℕ) (s : Thread) (r : ℕ) (rs : List ℕ)
    → IsValid s
    → s.queue ≡ some (r ∷ rs)
    → s.current ≡ some r
    → let (n, s1) = apply_ticket now s (id_of s.store r) in
      (n ≡ pos 1) × (s1.queue ≡ some rs) × (s1.current ≡ first rs)
apply_ticket-current now s r rs v e c =
    let shape : Shape s.store (some r) (r ∷ rs) =
      subst (λ t. Shape s.store t (r ∷ rs)) c (valid_queue s (r ∷ rs) e v).1 in
    ticket-removes now s (id_of s.store r) (r ∷ rs) rs 0 e (
      remove-hit s.store (id_of s.store r) r rs rs 0 refl
        (remove-Waiting s.store (id_of s.store r) rs shape.1 shape.2))

-- In a valid state with the current packet first in the queue, a ticket with another number than
-- that of the current packet, and not the empty one, changes nothing.
pub apply_ticket-other :
    (now : ℕ) (s : Thread) (id r : ℕ) (rs : List ℕ)
    → IsValid s
    → s.queue ≡ some (r ∷ rs)
    → s.current ≡ some r
    → id ≢ 0
    → id ≢ id_of s.store r
    → apply_ticket now s id ≡ (pos 0, s)
unfolding apply_ticket
apply_ticket-other now s id r rs v e c h k =
    let shape : Shape s.store (some r) (r ∷ rs) =
      subst (λ t. Shape s.store t (r ∷ rs)) c (valid_queue s (r ∷ rs) e v).1 in
    let kept : remove_packets s.store id (r ∷ rs) ≡ (0, r ∷ rs) =
      remove-miss s.store id r rs rs 0 (λ z. k (sym z)) (remove-Waiting s.store id rs h shape.2) in
    rw (e, apply_ticket) (rw kept)

-- In a valid state with packets that wait behind the current one, a ticket with the empty number
-- drops all of these, unsent, and counts them as acknowledged; the current packet stays.
pub apply_ticket-zero :
    (now : ℕ) (s : Thread) (r w : ℕ) (rs : List ℕ)
    → IsValid s
    → s.queue ≡ some (r ∷ (w ∷ rs))
    → s.current ≡ some r
    → let (n, s1) = apply_ticket now s 0 in
      (n ≡ pos (length (w ∷ rs))) × (s1.queue ≡ some (r ∷ [])) × (s1.current ≡ some r)
apply_ticket-zero now s r w rs v e c =
    let shape : Shape s.store (some r) (r ∷ (w ∷ rs)) =
      subst (λ t. Shape s.store t (r ∷ (w ∷ rs))) c (valid_queue s (r ∷ (w ∷ rs)) e v).1 in
    ticket-removes now s 0 (r ∷ (w ∷ rs)) (r ∷ []) (length rs) e (
      remove-miss s.store 0 r (w ∷ rs) [] (length (w ∷ rs)) shape.1
        (remove-Waiting_zero s.store (w ∷ rs) shape.2))
