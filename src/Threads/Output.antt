-- ===== src/Threads/Output.antt =====
-- The sending side of Threads/ThreadHandler.cpp: packets are written through a DataStream to the
-- output buffer, and the device takes bytes from its front. The buffer is the array of the stream.
-- How many bytes a device takes of a call of its `write` is an argument.
pub mod Delivery
mod Tests
use threader.Prelude.{
  ℕ, Bool, false, none, some, List, [], ◌++◌, ◌==◌, if◌then◌else◌, length, take, drop,
}
use threader.Prelude.Int.{ℤ, pos, ltb_ℤ, pos_part, ◌-ℤ◌}
use threader.Utils.Stream
use threader.Utils.Stream.{Stream}

-- `written` is what has gone to the device, the oldest byte first.
pub record Output : Type 0 where
  pub stream : Stream
  pub is_connected : Bool
  pub written : List ℕ
  pub last_packet_sent : ℕ

unfoldable pub start : Bool → ℕ → Output
start connected now = record {
  stream = Stream.new (some []);
  is_connected = connected;
  written = [];
  last_packet_sent = now;
}

abbrev pub buffer : Output → List ℕ
buffer o = elim o.stream.array [ none ↦ [] | some d ↦ d ]

-- Removing the first `n` bytes of the buffer, with the cursor moved as far to the front.
unfoldable pub remove_front : Output → ℕ → Output
remove_front o n = record o {
  stream =
      Stream.set_position (record (o.stream) { array = some (drop n (buffer o)) })
        (o.stream.position -ℤ pos n);
  written = o.written ++ take n (buffer o);
}

-- `slotOnReadyToWrite`; the device's `write` gives how many bytes of its argument it took.
unfoldable pub on_ready_to_write : Output → (List ℕ → ℤ) → Output
on_ready_to_write o device =
    let taken = device (buffer o) in
    if length (buffer o) == 0
    then o
    else if ltb_ℤ (pos 0) taken
    then remove_front o (pos_part taken)
    else o

-- `sendPacket`, for a packet that writes `bytes`
unfoldable pub send_packet : (ℕ → List ℕ) → ℕ → Output → List ℕ → (List ℕ → ℤ) → Bool × Output
send_packet junk now o bytes device =
    let (done, s) = Stream.write junk o.stream bytes in
    if o.is_connected
    then (
      done,
      record (on_ready_to_write (record o { stream = s }) device) { last_packet_sent = now },
    )
    else (false, o)

-- `clearBuffers`, for the output buffer
unfoldable pub clear_buffers : Output → Output
clear_buffers o = record o { stream = record (o.stream) { array = some [] } }

-- `slotOnConnectionStateChanged`, for the output side: every change clears the buffer.
unfoldable pub on_connection_state_changed : ℕ → Output → Bool → Output
on_connection_state_changed now o connected =
    let o1 = record (clear_buffers o) { is_connected = connected } in
    if connected then record o1 { last_packet_sent = now } else o1
