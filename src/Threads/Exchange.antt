-- ===== src/Threads/Exchange.antt =====
-- Two peers over a connection: the sending side of one ThreadHandler and the receiving side of
-- another (Threads/ThreadHandler.cpp), with packets of Frames/DataFramesPackets.cpp.
mod Tests
use threader.Prelude.{
  ℕ, ◌<◌, ◌≡◌, refl, ap, ◌∙◌, sym, Bool, true, some, List, [], ◌∷◌, ◌++◌, append-nil, length,
}
use threader.Prelude.Int.{ℤ}
use threader.Frames.Packets.{Packet, Factory, packet_bytes}
use threader.Utils.Stream.Typed.{IsFiller}
use threader.Threads.Output.{Output, start, buffer}
use threader.Threads.Output.Delivery.{Call, Devices, accepted, run-start-in_order}
use threader.Threads.Output.Delivery
use threader.Threads.Input.{Input, read_calls}
use threader.Threads.Input.Loop.{ArePackets, stream_of, data_frames_factory}
use threader.Threads.Input.Chunks.{arrived, listening, read_calls-stream_of}

-- What the sending peer is asked for: to send a packet, or its device is ready for more.
pub data Sending : Type 0 where
  sends : ℕ → Packet → (List ℕ → ℤ) → Sending
  ready : (List ℕ → ℤ) → Sending

-- A packet writes its bytes.
unfoldable pub calls_of : List Sending → List Call
calls_of [] = []
calls_of (sends now p device ∷ ss) = Call.sends now (packet_bytes p) device ∷ calls_of ss
calls_of (ready device ∷ ss) = Call.ready device ∷ calls_of ss

unfoldable pub packets_of : List Sending → List Packet
packets_of [] = []
packets_of (sends now p device ∷ ss) = p ∷ packets_of ss
packets_of (ready device ∷ ss) = packets_of ss

accepted-calls_of : (ss : List Sending) → accepted (calls_of ss) ≡ stream_of (packets_of ss)
unfolding accepted calls_of packets_of stream_of
accepted-calls_of [] = refl
accepted-calls_of (sends now p device ∷ ss) = ap (λ t. packet_bytes p ++ t) (accepted-calls_of ss)
accepted-calls_of (ready device ∷ ss) = accepted-calls_of ss

-- Once a new connection has taken all that a peer sent, in whatever parts its device takes, and the
-- bytes have come to the other peer, in whatever pieces and calls, the other peer has handed on
-- exactly the packets that were sent, in their order, and its input buffer is empty.
pub read_calls-run :
    (junk : ℕ → List ℕ) (now fuel : ℕ) (has_parent : Bool) (f : Factory) (ss : List Sending)
    (calls : List (List (List ℕ)))
    → IsFiller junk
    → Devices (calls_of ss)
    → ArePackets (packets_of ss)
    → length (packets_of ss) < fuel
    → let o = Delivery.run junk (start true now) (calls_of ss) in
      buffer o ≡ []
      → arrived calls ≡ o.written
      → (i : Input Factory Packet) × (read_calls data_frames_factory fuel now
            (listening has_parent [] f [] 0 [])
            calls
          ≡ some i)
        × (i.received ≡ packets_of ss)
        × (i.buffer ≡ [])
read_calls-run junk now fuel hp f ss calls filler devices valid n empty e =
    let o = Delivery.run junk (start true now) (calls_of ss) in
    read_calls-stream_of fuel now hp f (packets_of ss) calls valid n (
      e
      ∙ sym (append-nil o.written)
      ∙ ap (λ t. o.written ++ t) (sym empty)
      ∙ (run-start-in_order junk filler now (calls_of ss) devices).0
      ∙ accepted-calls_of ss)
