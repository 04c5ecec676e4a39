-- ===== src/Threads/DataFrames.antt =====
-- Threads/ThreadDataFrames.cpp: sending packets to a peer one at a time, each until its ticket comes,
-- with QueueDataFramesPackets (Frames/DataFramesPackets.cpp) as the queue. Packets are shared by
-- pointer: the queue and `_currentPacket` hold references into a store. Of ThreadHandler a state
-- keeps whether the device is connected and when a packet was last sent; what is sent and what the
-- virtual callbacks are told is a list of events, the last one first. Time is an argument. What
-- `DataFrame::write` makes of a frame, and how many frames a factory reads, are arguments.
pub mod Waiting
pub mod StopAndWait
pub mod Calls
pub mod Acknowledge
mod Tests
use threader.Prelude.{
  ℕ, zero, suc, ◌+◌, ◌-◌, ◌%◌, ◌^◌, Bool, true, false, ◌&&◌, not, Option, none, some, List, [], ◌∷◌,
  ◌++◌, ltb, leb, ◌==◌, if◌then◌else◌, length, take,
}
use threader.Prelude.Int.{ℤ, pos, negsuc, ltb_ℤ}
use threader.Prelude.Bytes.{le_value}
use threader.Frames.PacketType
use threader.Frames.Packets.{
  Packet, Factory, new, set_packet_id, set_packet_type, build_packet_from_frame,
  build_packet_ticket, generate_next_packet_id,
}

pub data Event : Type 0 where
  sent : Packet → Event
  queued : Packet → Event
  applied : ℕ → Event
  discontinuity : ℤ → ℕ → Event
  frames_received : ℕ → ℕ → Event

-- `queue` is `none` without a queue.
pub record Thread : Type 0 where
  pub factory : Factory
  pub store : ℕ → Packet
  pub next_ref : ℕ
  pub queue : Option (List ℕ)
  pub current : Option ℕ
  pub next_packet_id : ℤ
  pub is_connected : Bool
  pub last_packet_sent : ℕ
  pub events : List Event

abbrev pub update : (ℕ → Packet) → ℕ → Packet → ℕ → Packet
update store r p i = if i == r then p else store i

abbrev pub id_of : (ℕ → Packet) → ℕ → ℕ
id_of store r = (store r).header.packet_id

-- The loop of `QueueDataFramesPackets::applyTicket`, from the back.
unfoldable pub remove_packets : (ℕ → Packet) → ℕ → List ℕ → ℕ × List ℕ
remove_packets store id [] = (0, [])
remove_packets store id (r ∷ rs) =
    let (n, rest) = remove_packets store id rs in
    if id_of store r == id then (n + 1, rest) else (n, r ∷ rest)

-- `QueueDataFramesPackets::reset`
unfoldable pub reset_packets : (ℕ → Packet) → List ℕ → ℕ → Packet
reset_packets store [] = store
reset_packets store (r ∷ rs) = reset_packets (update store r (set_packet_id (store r) 0)) rs

-- The constructors, on a device that is connected or not. They do not set `_nextPacketId`, which holds
-- `unset`.
unfoldable pub start : ℤ → (ℕ → Packet) → Bool → Bool → ℕ → Thread
start unset store use_queue connected now = record {
  factory = new;
  store = store;
  next_ref = 0;
  queue = if use_queue then some [] else none;
  current = none;
  next_packet_id = unset;
  is_connected = connected;
  last_packet_sent = now;
  events = [];
}

abbrev pub note : Event → Thread → Thread
note e s = record s { events = e ∷ s.events }

-- `ThreadHandler::sendPacket`; `none` for a null packet
unfoldable pub send_packet : ℕ → Thread → Option Packet → Bool × Thread
send_packet now s none = (false, s)
send_packet now s (some p) =
    if s.is_connected
    then (true, record s { last_packet_sent = now; events = sent p ∷ s.events })
    else (false, s)

-- `onConnected`
unfoldable pub on_connected : Thread → Thread
on_connected s = record s { next_packet_id = negsuc 0 }

-- The part of `processQueue` for no current packet.
unfoldable pub send_first : ℕ → Thread → List ℕ → Thread
send_first now s [] = s
send_first now s (r ∷ rs) =
    let (id, f) = generate_next_packet_id s.factory in
    let p = set_packet_id (s.store r) id in
    (send_packet now (record s { factory = f; store = update s.store r p; current = some r })
      (some p)).1

unfoldable pub process_queue : ℕ → Thread → Thread
process_queue now s = elim s.queue [
  | none ↦ s
  | some rs ↦ elim s.current [
    | none ↦ send_first now s rs
    | some r ↦
        if ltb (s.last_packet_sent + 2000) now then (send_packet now s (some (s.store r))).1 else s
  ]
]

-- `applyTicket`: -1 without a queue
unfoldable pub apply_ticket : ℕ → Thread → ℕ → ℤ × Thread
apply_ticket now s id = elim s.queue [
  | none ↦ (negsuc 0, s)
  | some rs ↦
      let r = remove_packets s.store id rs in
      let s1 = record s { queue = some r.1 } in
      if ltb 0 r.0
      then (pos r.0, process_queue now (record (note (applied id) s1) { current = none }))
      else (pos r.0, s1)
]

-- Queueing a packet in `sendFrame`.
unfoldable pub enqueue : ℕ → Thread → List ℕ → Packet → Thread
enqueue now s rs p = process_queue now (
    note (queued p) (record s {
      store = update s.store s.next_ref p;
      next_ref = s.next_ref + 1;
      queue = some (rs ++ (s.next_ref ∷ []));
    }))

-- The branch of `sendFrame` that sends at once.
unfoldable pub send_direct : ℕ → Thread → Packet → Thread
send_direct now s p =
    let (id, f) = generate_next_packet_id s.factory in
    (send_packet now (record s { factory = f }) (some (set_packet_id p id))).1

-- The branches of `sendFrame` for a packet that was built.
unfoldable pub send_built : ℕ → Thread → Bool → Packet → Thread
send_built now s needs_ticket p = elim s.queue [
  | none ↦ send_direct now s p
  | some rs ↦ if needs_ticket then enqueue now s rs p else send_direct now s p
]

-- `sendFrame`. `needs_ticket` is `none` for a null frame or one without a definition, and `body` is
-- what the frame's `write` makes of it.
unfoldable pub send_frame : ℕ → Thread → Option Bool → List ℕ → Bool × Thread
send_frame now s none body = (false, s)
send_frame now s (some needs_ticket) body =
    let built = build_packet_from_frame s.factory (some needs_ticket) body false in
    elim built.0 [
      | none ↦ (false, s)
      | some p ↦ (true, send_built now (record s { factory = built.1 }) needs_ticket p)
    ]

-- `resetQueue`
unfoldable pub reset_queue : Thread → Thread
reset_queue s = elim s.queue [
  | none ↦ record s { current = none }
  | some rs ↦ record s { current = none; store = reset_packets s.store rs }
]

-- The check of the number of a received packet.
unfoldable pub check_packet_id : Thread → ℕ → Thread
check_packet_id s id =
    let s1 : Thread = elim s.next_packet_id [
      | negsuc n ↦ s
      | pos n ↦ if n == id then s else note (discontinuity (pos n) id) s
    ] in
    record s1 { next_packet_id = pos ((id + 1) % 2 ^ 32) }

-- The ticket for a received packet.
unfoldable pub acknowledge : ℕ → Thread → ℕ → Thread
acknowledge now s id =
    let built = build_packet_ticket s.factory id in
    (send_packet now (record s { factory = built.1 }) built.0).1

-- The frames of a received packet. `frames` is how many of them the factory reads, `none` without a
-- factory.
unfoldable pub deliver : Thread → ℕ → Option ℕ → Bool × Thread
deliver s id none = (false, s)
deliver s id (some n) = if n == 0 then (false, s) else (true, note (frames_received n id) s)

-- A received packet that is no ticket.
unfoldable pub receive_frames : ℕ → Thread → Packet → Option ℕ → Bool × Thread
receive_frames now s p frames =
    let s1 = acknowledge now s p.header.packet_id in
    if p.header.packet_type == PacketType.packet_without_ticket
    then deliver s1 p.header.packet_id frames
    else (true, s1)

-- A received ticket.
unfoldable pub receive_ticket : ℕ → Thread → List ℕ → Bool × Thread
receive_ticket now s body =
    if ltb (length body) 4
    then (false, s)
    else (true, (apply_ticket now s (le_value (take 4 body))).1)

-- `onPacketReceived`
unfoldable pub on_packet_received : ℕ → Thread → Packet → Option ℕ → Bool × Thread
on_packet_received now s p frames =
    let s1 = check_packet_id s p.header.packet_id in
    let kind = p.header.packet_type in
    if leb kind PacketType.packet_needs_ticket
    then receive_frames now s1 p frames
    else if kind == PacketType.ticket
    then receive_ticket now s1 p.body
    else (false, s1)
