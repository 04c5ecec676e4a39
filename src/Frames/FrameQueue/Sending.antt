-- ===== src/Frames/FrameQueue/Sending.antt =====
-- What QueueDataFrames::prepareSendingList puts in a packet (Frames/QueueDataFrames.cpp).
use threader.Prelude.{ℕ, ◌+◌, ◌<◌, ◌≡◌, false, Option, List, [], ◌∷◌, arith}
use threader.Prelude.Int.{ℤ}
use threader.Frames.RawData.{Frame, priority}
use threader.Frames.FrameQueue.{
  Queue, is_eligible, required_size, prepare_loop, prepare_sending_list, refuses, to_int,
}
use threader.Frames.FrameQueue.Priority.{IsValid, Below}

-- The bytes that frames take of a packet.
unfoldable pub packet_size : List Frame → ℕ
packet_size [] = 0
packet_size (f ∷ fs) = required_size f + packet_size fs

-- Frames of one priority and one packet.
abbrev pub Marked : ℕ → ℤ → List Frame → Type 0
Marked m id [] = Unit {0}
Marked m id (f ∷ fs) = (priority f ≡ m) × (f.packet_id ≡ id) × Marked m id fs

prepare_loop-size :
    (limit maximum : ℕ) (id : ℤ) (data_size : ℕ) (fs : List Frame)
    → data_size < limit
    → data_size + packet_size (prepare_loop limit maximum id data_size fs).0 < limit
unfolding prepare_loop packet_size
prepare_loop-size limit maximum id data_size [] h = omega arith
prepare_loop-size limit maximum id data_size (f ∷ fs) h = ground (
  arith,
  prepare_loop-size limit maximum id (data_size + (f.size + 4)) fs,
  prepare_loop-size limit maximum id data_size fs h,
)

prepare_loop-Marked :
    (limit maximum : ℕ) (id : ℤ) (data_size : ℕ) (fs : List Frame)
    → Below maximum fs
    → Marked maximum id (prepare_loop limit maximum id data_size fs).0
unfolding prepare_loop is_eligible priority
prepare_loop-Marked limit maximum id data_size [] h = tt
prepare_loop-Marked limit maximum id data_size (f ∷ fs) h = ground (
  arith,
  prepare_loop-Marked limit maximum id (data_size + (f.size + 4)) fs h.1,
  prepare_loop-Marked limit maximum id data_size fs h.1,
)

-- A caller that the queue does not refuse gets, from a valid queue with a packet limit above 0,
-- frames that together stay below the limit, all of the greatest priority in the queue, and all
-- marked with the packet.
pub prepare_sending_list_lem :
    (q : Queue) (t : Option ℕ) (id : ℕ) (list : List Frame)
    → IsValid q
    → refuses q t ≡ false
    → 0 < q.maximum_packet_size
    → (packet_size (prepare_sending_list q t id list).0 < q.maximum_packet_size)
      × Marked q.queued_maximum_priority (to_int id) (prepare_sending_list q t id list).0
unfolding prepare_sending_list
prepare_sending_list_lem q t id list v e h = rw e (
  omega (
    arith,
    prepare_loop-size q.maximum_packet_size q.queued_maximum_priority (to_int id) 0 q.queued_frames
        h,
  ),
  prepare_loop-Marked q.maximum_packet_size q.queued_maximum_priority (to_int id) 0 q.queued_frames
      v.queued_below,
)
