-- ===== src/Frames/FrameQueue/Tickets.antt =====
-- A packet of frames from QueueDataFrames::prepareSendingList to its ticket in
-- QueueDataFrames::applyTicket (Frames/QueueDataFrames.cpp).
use mathlib.Core.List.{Perm, perm_middle}
use mathlib.Core.List.Perm
use threader.Prelude.{
  ℕ, ◌+◌, ◌^◌, ◌<◌, ◌≡◌, ◌≢◌, refl, ap, Bool, false, Option, none, some, List, [], ◌∷◌, ◌++◌, map,
  ltb, arith, length, Bool-cases, inl, inr,
}
use threader.Prelude.Int.{ℤ, pos}
use threader.Frames.RawData.{Frame, set_packet_id}
use threader.Frames.FrameQueue.{
  Queue, is_eligible, required_size, prepare_loop, prepare_sending_list, refuses, to_int, to_uint,
  ticket_loop, apply_ticket,
}

-- No frame is in the packet.
abbrev pub NoPacket : ℕ → List Frame → Type 0
NoPacket id [] = Unit {0}
NoPacket id (f ∷ fs) = (to_uint f.packet_id ≢ id) × NoPacket id fs

-- A frame without its packet.
abbrev pub forget : Frame → Frame
forget f = set_packet_id f (pos 0)

pub to_uint-to_int : (id : ℕ) → id < 2 ^ 32 → to_uint (to_int id) ≡ id
unfolding to_uint to_int
to_uint-to_int id h = ground arith

ticket_loop-none :
    (id : ℕ) (fs : List Frame)
    → NoPacket id fs
    → ((ticket_loop id fs).0 ≡ 0) × ((ticket_loop id fs).1 ≡ fs)
unfolding ticket_loop
ticket_loop-none id [] h = (refl, refl)
ticket_loop-none id (f ∷ fs) h = ground (arith, ticket_loop-none id fs h.1)

-- The loop of `applyTicket` keeps, in order, the frames of other packets.
pub ticket_loop-NoPacket : (id : ℕ) (fs : List Frame) → NoPacket id (ticket_loop id fs).1
unfolding ticket_loop
ticket_loop-NoPacket id [] = tt
ticket_loop-NoPacket id (f ∷ fs) = ground (arith, ticket_loop-NoPacket id fs)

-- What a packet and its ticket make of a list of frames.
record Settled (fs sent : List Frame) (n : ℕ) (left : List Frame) : Type 0 where
  pub counted : n ≡ length sent
  pub kept : length sent + length left ≡ length fs
  pub same : Perm (map forget fs) (map forget sent ++ map forget left)

ticket_loop-hit :
    (id : ℕ) (f : Frame) (fs : List Frame)
    → to_uint f.packet_id ≡ id
    → ((ticket_loop id (f ∷ fs)).0 ≡ (ticket_loop id fs).0 + 1)
      × ((ticket_loop id (f ∷ fs)).1 ≡ (ticket_loop id fs).1)
unfolding ticket_loop
ticket_loop-hit id f fs e = ground arith

ticket_loop-miss :
    (id : ℕ) (f : Frame) (fs : List Frame)
    → to_uint f.packet_id ≢ id
    → ((ticket_loop id (f ∷ fs)).0 ≡ (ticket_loop id fs).0)
      × ((ticket_loop id (f ∷ fs)).1 ≡ f ∷ (ticket_loop id fs).1)
unfolding ticket_loop
ticket_loop-miss id f fs e = ground arith

Settled-taken :
    (f : Frame) (i : ℤ) (fs sent left left' : List Frame) (n n' : ℕ)
    → Settled fs sent n left
    → n' ≡ n + 1
    → left' ≡ left
    → Settled (f ∷ fs) (set_packet_id f i ∷ sent) n' left'
Settled-taken f i fs sent left left' n n' s e l = record {
  counted = omega (arith, s.counted);
  kept = omega (arith, s.kept, ap length l);
  same = rw l (Perm.cons (forget f) s.same);
}

Settled-passed :
    (f : Frame) (fs sent left left' : List Frame) (n n' : ℕ)
    → Settled fs sent n left
    → n' ≡ n
    → left' ≡ f ∷ left
    → Settled (f ∷ fs) sent n' left'
Settled-passed f fs sent left left' n n' s e l = record {
  counted = omega (arith, s.counted);
  kept = omega (arith, s.kept, ap length l);
  same = rw l (
      Perm.trans (Perm.cons (forget f) s.same)
        (Perm.symm (perm_middle (map forget sent) (map forget left))));
}

Settled-none : (fs left : List Frame) (n : ℕ) → n ≡ 0 → left ≡ fs → Settled fs [] n left
Settled-none fs left n e l = record {
  counted = e;
  kept = omega (arith, ap length l);
  same = rw l (Perm.refl (map forget fs));
}

settle :
    (limit maximum id : ℕ) (data_size : ℕ) (fs : List Frame)
    → id < 2 ^ 32
    → NoPacket id fs
    → let r = prepare_loop limit maximum (to_int id) data_size fs in
      Settled fs r.0 (ticket_loop id r.1).0 (ticket_loop id r.1).1
unfolding prepare_loop
settle limit maximum id data_size [] h k =
    Settled-none [] _ _ (ticket_loop-none id [] tt).0 (ticket_loop-none id [] tt).1
settle limit maximum id data_size (f ∷ fs) h k =
    let taken = settle limit maximum id (data_size + required_size f) fs h k.1 in
    let passed = settle limit maximum id data_size fs h k.1 in
    elim (Bool-cases (is_eligible maximum f)) [
      | inr e ↦ rw e (
          let miss =
            ticket_loop-miss id f (prepare_loop limit maximum (to_int id) data_size fs).1 k.0 in
          Settled-passed f fs _ _ _ _ _ passed miss.0 miss.1)
      | inl e ↦ elim (Bool-cases (ltb (data_size + required_size f) limit)) [
        | inl fits ↦
            rw (e, fits)
              (let hit =
                  ticket_loop-hit id (set_packet_id f (to_int id))
                    (prepare_loop limit maximum (to_int id) (data_size + required_size f) fs).1
                    (to_uint-to_int id h) in
                Settled-taken f (to_int id) fs _ _ _ _ _ taken hit.0 hit.1)
        | inr full ↦
            rw (e, full)
              (let stay = ticket_loop-none id (f ∷ fs) k in Settled-none (f ∷ fs) _ _ stay.0 stay.1)
      ]
    ]

refuses-same :
    (q : Queue) (u : Option ℕ) (fs : List Frame)
    → refuses q u ≡ false
    → refuses (record q { queued_frames = fs }) u ≡ false
unfolding refuses
refuses-same q none fs h = h
refuses-same q (some u) fs h = refl

-- A packet made with a number that no queued frame has, and then its ticket, both by callers that
-- are not refused: the ticket counts exactly the frames of the packet, the frames sent and the
-- frames left are the frames that were queued, each as often, and none left has that number.
pub apply_ticket-prepare_sending_list :
    (q : Queue) (t u : Option ℕ) (id : ℕ) (list : List Frame) (wanted : Bool)
    → id < 2 ^ 32
    → NoPacket id q.queued_frames
    → refuses q t ≡ false
    → refuses q u ≡ false
    → let (sent, q1) = prepare_sending_list q t id list in
      let q2 = (apply_ticket q1 u id wanted).2 in
      ((apply_ticket q1 u id wanted).0 ≡ length sent)
      × (length sent + length q2.queued_frames ≡ length q.queued_frames)
      × Perm (map forget q.queued_frames) (map forget sent ++ map forget q2.queued_frames)
      × NoPacket id q2.queued_frames
unfolding prepare_sending_list apply_ticket
apply_ticket-prepare_sending_list q t u id list wanted h k e i =
    let s = settle q.maximum_packet_size q.queued_maximum_priority id 0 q.queued_frames h k in
    rw e (rw (refuses-same q u _ i) (s.counted, s.kept, s.same, ticket_loop-NoPacket id _))
