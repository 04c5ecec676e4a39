-- ===== src/Frames/FrameQueue/Tests.antt =====
-- Runs of the theorems on QueueDataFrames at a queue of two frames.
use threader.Prelude.{
  ℕ, ◌+◌, ◌≡◌, ◌<◌, refl, true, false, Option, none, some, List, [], ◌∷◌, ◌++◌, arith, length, map,
}
use mathlib.Core.List.{Perm}
use threader.Prelude.Int.{negsuc}
use threader.Frames.RawData.{Frame, Definition, priority}
use threader.Frames.FrameQueue.{
  Queue, server, new, refuses, prepare_sending_list, apply_ticket, to_int, to_uint,
}
use threader.Frames.FrameQueue.Priority.{
  IsValid, collect, apply_collected, prepare, ticket, bind, run, run-new-IsValid,
}
use threader.Frames.FrameQueue.Sending.{packet_size, Marked, prepare_sending_list_lem}
use threader.Frames.FrameQueue.Tickets.{NoPacket, forget, apply_ticket-prepare_sending_list}

abbrev frame_with : ℕ → Option Definition → Frame
frame_with n d = record {
  is_valid = true;
  buffer = [];
  size = n;
  data_offset = 1;
  data_length = 0;
  name_string = [];
  packet_id = negsuc 0;
  definition = d;
}

abbrev urgent : Definition
urgent = record { name = []; needs_ticket = true; is_array = false; capacity = 0; priority = 5 }

abbrev small_frame : Frame
small_frame = frame_with 10 none

abbrev urgent_frame : Frame
urgent_frame = frame_with 20 (some urgent)

abbrev big_frame : Frame
big_frame = frame_with 2000 none

abbrev queue_with : ℕ → List Frame → Queue
queue_with m fs = record {
  alias = [];
  appended_frames = [];
  queued_frames = fs;
  appending_maximum_priority = 1;
  queued_maximum_priority = m;
  thread = none;
  connection_type = server;
  file_name = [];
  use_queue = true;
  maximum_packet_size = 1000;
}

abbrev two_frames : Queue
two_frames = queue_with 5 (small_frame ∷ urgent_frame ∷ [])

two_frames-IsValid : IsValid two_frames
unfolding priority
two_frames-IsValid = record {
  appending_pos = omega arith;
  queued_pos = omega arith;
  appending_below = tt;
  queued_below = (omega arith, (omega arith, tt));
}

two_frames-NoPacket : NoPacket 7 (two_frames.queued_frames)
unfolding to_uint
two_frames-NoPacket = ((λ e. absurd (omega (arith, e))), ((λ e. absurd (omega (arith, e))), tt))

run-new-IsValid_example : IsValid (
    run (new [] server true) (
      collect (some urgent_frame)
      ∷ apply_collected true
      ∷ prepare none 3
      ∷ bind (some 4)
      ∷ ticket (some 4) 3 false
      ∷ []))
run-new-IsValid_example = run-new-IsValid [] server true (
    collect (some urgent_frame)
    ∷ apply_collected true
    ∷ prepare none 3
    ∷ bind (some 4)
    ∷ ticket (some 4) 3 false
    ∷ [])

prepare_sending_list_lem_example :
    (packet_size (prepare_sending_list two_frames (some 1) 7 []).0 < 1000)
    × Marked 5 (to_int 7) (prepare_sending_list two_frames (some 1) 7 []).0
unfolding refuses
prepare_sending_list_lem_example =
    prepare_sending_list_lem two_frames (some 1) 7 [] two_frames-IsValid refl (omega arith)

apply_ticket-prepare_sending_list_example :
    let (sent, q1) = prepare_sending_list two_frames (some 1) 7 [] in
    let q2 = (apply_ticket q1 (some 2) 7 true).2 in
    ((apply_ticket q1 (some 2) 7 true).0 ≡ length sent)
    × (length sent + length q2.queued_frames ≡ length (two_frames.queued_frames))
    × Perm (map forget (two_frames.queued_frames)) (map forget sent ++ map forget q2.queued_frames)
    × NoPacket 7 q2.queued_frames
unfolding refuses
apply_ticket-prepare_sending_list_example =
    apply_ticket-prepare_sending_list two_frames (some 1) (some 2) 7 [] true (omega arith)
      two_frames-NoPacket refl refl
