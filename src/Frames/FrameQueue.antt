-- ===== src/Frames/FrameQueue.antt =====
-- Frames/QueueDataFrames.h and Frames/QueueDataFrames.cpp: the queue of frames that wait for a
-- peer's ticket. A frame stands in the queue as a value: the source shares it by pointer, and the
-- same frame is not queued twice. Lists hold no null pointer. What a call posts to threads is a list
-- of events; every call holds the mutex of the queue, so calls do not overlap. Frame lengths stay
-- below 2 ^ 31 - 4, so that the `int` sum of `prepareSendingList` does not overflow.
pub mod Priority
pub mod Sending
pub mod Tickets
mod Tests
use threader.Prelude.{
  ℕ, zero, suc, ◌+◌, ◌-◌, ◌*◌, ◌%◌, ◌^◌, Bool, true, false, ◌&&◌, not, Option, none, some, List, [],
  ◌∷◌, ◌++◌, map, ltb, leb, ◌==◌, if◌then◌else◌, length,
}
use threader.Prelude.Int.{ℤ, pos, negsuc, ltb_ℤ}
use threader.Frames.RawData.{Frame, priority, set_packet_id, append_byte_array}

pub data ConnectionType : Type 0 where
  server client : ConnectionType

-- A thread is known by a number.
pub record Queue : Type 0 where
  pub alias : List ℕ
  pub appended_frames : List Frame
  pub queued_frames : List Frame
  pub appending_maximum_priority : ℕ
  pub queued_maximum_priority : ℕ
  pub thread : Option ℕ
  pub connection_type : ConnectionType
  pub file_name : List ℕ
  pub use_queue : Bool
  pub maximum_packet_size : ℕ

-- What is posted to a thread.
pub data Event : Type 0 where
  terminate_event : ℕ → Event
  queue_message : ℕ → List ℕ → Event

-- ".Hub" and ".queue"
abbrev hub_suffix : List ℕ
hub_suffix = 0x2e ∷ 0x48 ∷ 0x75 ∷ 0x62 ∷ []

abbrev queue_suffix : List ℕ
queue_suffix = 0x2e ∷ 0x71 ∷ 0x75 ∷ 0x65 ∷ 0x75 ∷ 0x65 ∷ []

unfoldable pub new : List ℕ → ConnectionType → Bool → Queue
new alias kind use_queue = record {
  alias = alias;
  appended_frames = [];
  queued_frames = [];
  appending_maximum_priority = 1;
  queued_maximum_priority = 1;
  thread = none;
  connection_type = kind;
  file_name = alias ++ (elim kind [ server ↦ hub_suffix | client ↦ [] ] ++ queue_suffix);
  use_queue = use_queue;
  maximum_packet_size = 1 * 1024 * 1024;
}

-- `PacketIdType` is `uint32_t`, a frame keeps its packet in an `int`.
unfoldable pub to_int : ℕ → ℤ
to_int n = if ltb n (2 ^ 31) then pos n else negsuc (2 ^ 32 - n - 1)

unfoldable pub to_uint : ℤ → ℕ
to_uint (pos n) = n % 2 ^ 32
to_uint (negsuc n) = 2 ^ 32 - 1 - n % 2 ^ 32

unfoldable pub count : Queue → ℕ
count q = length q.queued_frames

unfoldable pub appending_frames_count : Queue → ℕ
appending_frames_count q = length q.appended_frames

abbrev pub raise : ℕ → Frame → ℕ
raise m f = if ltb m (priority f) then priority f else m

unfoldable pub raise_all : ℕ → List Frame → ℕ
raise_all m [] = m
raise_all m (f ∷ fs) = raise_all (raise m f) fs

unfoldable pub collect_appending_frame : Queue → Option Frame → ℕ × Queue
collect_appending_frame q none = (length q.appended_frames, q)
collect_appending_frame q (some f) =
    let fs = q.appended_frames ++ (f ∷ []) in
    (
      length fs,
      record q {
        appended_frames = fs;
        appending_maximum_priority = raise q.appending_maximum_priority f;
      },
    )

unfoldable pub collect_appending_frames_list : Queue → List Frame → ℕ × Queue
collect_appending_frames_list q list =
    let fs = q.appended_frames ++ list in
    (
      length fs,
      record q {
        appended_frames = fs;
        appending_maximum_priority = raise_all q.appending_maximum_priority fs;
      },
    )

-- `makeSnapshot`: the queued frames, each behind its length
unfoldable pub snapshot_of : List Frame → List ℕ
snapshot_of [] = []
snapshot_of (f ∷ fs) = append_byte_array f [] false ++ snapshot_of fs

unfoldable pub make_snapshot : Queue → List ℕ
make_snapshot q = snapshot_of q.queued_frames

unfoldable pub notify_thread_queue_changed : Queue → List Event
notify_thread_queue_changed q = elim q.thread [ none ↦ [] | some t ↦ queue_message t q.alias ∷ [] ]

-- `wanted` is whether the caller passes an array for the snapshot.
unfoldable pub apply_collected_frames : Queue → Bool → ℕ × Option (List ℕ) × List Event × Queue
apply_collected_frames q wanted =
    let q1 = record q {
      queued_frames = q.queued_frames ++ q.appended_frames;
      appended_frames = [];
      queued_maximum_priority =
          if ltb q.queued_maximum_priority q.appending_maximum_priority
          then q.appending_maximum_priority
          else q.queued_maximum_priority;
      appending_maximum_priority = 1;
    } in
    if length q.appended_frames == 0 then (0, none, [], q) else (
      length q1.queued_frames,
      if wanted then some (make_snapshot q1) else none,
      notify_thread_queue_changed q1,
      q1,
    )

-- `nullptr == threadFor && _thread != threadFor`
unfoldable pub refuses : Queue → Option ℕ → Bool
refuses q (some t) = false
refuses q none = elim q.thread [ none ↦ false | some t ↦ true ]

-- A frame that is in no packet and whose priority reaches the maximum.
unfoldable pub is_eligible : ℕ → Frame → Bool
is_eligible maximum f = ltb_ℤ f.packet_id (pos 1) && leb maximum (priority f)

-- What a frame takes of a packet.
abbrev pub required_size : Frame → ℕ
required_size f = f.size + 4

-- The loop of `prepareSendingList`: the frames to send, and the queue with these marked.
unfoldable pub prepare_loop : ℕ → ℕ → ℤ → ℕ → List Frame → List Frame × List Frame
prepare_loop limit maximum id data_size [] = ([], [])
prepare_loop limit maximum id data_size (f ∷ fs) =
    let taken = prepare_loop limit maximum id (data_size + required_size f) fs in
    let passed = prepare_loop limit maximum id data_size fs in
    if is_eligible maximum f
    then if ltb (data_size + required_size f) limit
      then (set_packet_id f id ∷ taken.0, set_packet_id f id ∷ taken.1)
      else ([], f ∷ fs)
    else (passed.0, f ∷ passed.1)

-- `list` is what the caller's list held.
unfoldable pub prepare_sending_list : Queue → Option ℕ → ℕ → List Frame → List Frame × Queue
prepare_sending_list q thread_for id list =
    let r =
      prepare_loop q.maximum_packet_size q.queued_maximum_priority (to_int id) 0 q.queued_frames in
    if refuses q thread_for then (list, q) else (r.0, record q { queued_frames = r.1 })

-- The loop of `applyTicket`, from the back of the queue: how many frames the packet had, the others,
-- and the greatest priority of these.
unfoldable pub ticket_loop : ℕ → List Frame → ℕ × List Frame × ℕ
ticket_loop id [] = (0, [], 1)
ticket_loop id (f ∷ fs) =
    let (n, rest, m) = ticket_loop id fs in
    if to_uint f.packet_id == id then (n + 1, rest, m) else (n, f ∷ rest, raise m f)

unfoldable pub apply_ticket : Queue → Option ℕ → ℕ → Bool → ℕ × Option (List ℕ) × Queue
apply_ticket q thread_for id wanted =
    let r = ticket_loop id q.queued_frames in
    let q1 = record q { queued_frames = r.1; queued_maximum_priority = r.2 } in
    if refuses q thread_for
    then (0, none, q)
    else (r.0, if wanted then some (make_snapshot q1) else none, q1)

unfoldable pub reset : Queue → Queue
reset q = record q { queued_frames = map (λ f. set_packet_id f (negsuc 0)) q.queued_frames }

unfoldable pub bind_thread : Queue → Option ℕ → List Event × Queue
bind_thread q none = ([], q)
bind_thread q (some t) =
    let q1 = record q { thread = some t } in
    let stopped : List Event = elim q.thread [
      | none ↦ []
      | some old ↦ if old == t then [] else terminate_event old ∷ []
    ] in
    (stopped ++ notify_thread_queue_changed q1, q1)

unfoldable pub unbind_thread : Queue → Option ℕ → List Event × Queue
unbind_thread q none = ([], q)
unbind_thread q (some t) = elim q.thread [
  | none ↦ ([], q)
  | some old ↦ if old == t then (terminate_event old ∷ [], record q { thread = none }) else ([], q)
]

unfoldable pub set_use_queue : Queue → Bool → Queue
set_use_queue q b = record q { use_queue = b }
