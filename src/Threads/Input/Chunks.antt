-- ===== src/Threads/Input/Chunks.antt =====
-- Packets that arrive in pieces (Threads/ThreadHandler.cpp with Frames/DataFramesPackets.cpp).
use threader.Prelude.{
  ℕ, ◌%◌, ◌<◌, ◌≡◌, refl, ap, ◌∙◌, sym, Bool, true, false, some, List, [], ◌∷◌, ◌++◌, arith, length,
  length-append, append-nil, append_assoc,
}
use threader.Frames.Packets.{Packet, Factory, packet_bytes, last_result}
use threader.Threads.Input.{
  PacketFactory, Input, Event, read_data, counted, device_error, concat, packet_loop, hand_on, tell,
  extract_packets, process_input, on_ready_to_read, read_calls,
}
use threader.Threads.Input.Loop.{
  data_frames_factory, stream_of, ArePackets, Partial, length-packet_bytes, packet_loop-stream_of,
}

hand_on_lem :
    {S P : Type 0} (now : ℕ) (i : Input S P) (ps : List P)
    → (t : ℕ) × (hand_on now i ps
        ≡ record i { received = i.received ++ ps; last_packet_received = t })
unfolding hand_on
hand_on_lem now i [] =
    (i.last_packet_received, ap (λ r. record i { received = r }) (sym (append-nil i.received)))
hand_on_lem now i (p ∷ ps) =
    let next = record i { received = i.received ++ (p ∷ []); last_packet_received = now } in
    let (t, e) = hand_on_lem now next ps in
    (
      t,
      e
          ∙ ap (λ r. record i { received = r; last_packet_received = t })
              (append_assoc i.received (p ∷ []) ps),
    )

-- A handler over a device that is no portioned one, with a packet factory.
abbrev pub listening : Bool → List ℕ → Factory → List Packet → ℕ → List Event → Input Factory Packet
listening has_parent d f ps t es = record {
  buffer = d;
  factory = some f;
  portioned_io = false;
  has_parent = has_parent;
  received = ps;
  last_packet_received = t;
  events = es;
}

extract_packets_lem :
    {S P : Type 0} (base : PacketFactory S P) (fuel now : ℕ) (i : Input S P) (s : S)
    (r : List P × S × List ℕ)
    → packet_loop base fuel s i.buffer ≡ some r
    → extract_packets base fuel now i s
      ≡ some (
          tell
            (device_error (base.last_result r.1 % 256))
            (record (hand_on now i r.0) { factory = some r.1; buffer = r.2 }))
unfolding extract_packets
extract_packets_lem base fuel now i s r e = rw (e, extract_packets)

on_ready_to_read-listening :
    (fuel now : ℕ) (hp : Bool) (d : List ℕ) (f : Factory) (ps : List Packet) (t : ℕ)
    (es : List Event) (reads : List (List ℕ)) (r : List Packet × Factory × List ℕ)
    → packet_loop data_frames_factory fuel f (d ++ concat reads) ≡ some r
    → (t1 : ℕ) × (es1 : List Event) × (on_ready_to_read data_frames_factory fuel now true
          (listening hp d f ps t es)
          reads
        ≡ some (listening hp r.2 r.1 (ps ++ r.0) t1 es1))
unfolding on_ready_to_read process_input extract_packets
on_ready_to_read-listening fuel now hp d f ps t es reads r e =
    let es1 = read_data (concat reads) ∷ counted (length (concat reads)) ∷ es in
    let (t1, h) = hand_on_lem now (listening hp (d ++ concat reads) f ps t es1) r.0 in
    let code = device_error (last_result r.1 % 256) in
    (
      t1,
      code ∷ es1,
      extract_packets_lem data_frames_factory fuel now (listening hp (d ++ concat reads) f ps t es1)
            f r e
          ∙ ap
              (λ (i : Input Factory Packet).
                some (record i { factory = some r.1; buffer = r.2; events = code ∷ i.events }))
              h,
    )

-- The bytes of calls in a row.
unfoldable pub arrived : List (List (List ℕ)) → List ℕ
arrived [] = []
arrived (reads ∷ calls) = concat reads ++ arrived calls

nothing_yet : (ps : List Packet) → Partial [] ps
nothing_yet [] = refl
nothing_yet (p ∷ ps) = omega (arith, length-packet_bytes p)

stream_of-nil :
    (ps : List Packet) (d : List ℕ) → Partial d ps → d ≡ stream_of ps → (ps ≡ []) × (d ≡ [])
unfolding stream_of
stream_of-nil [] d h e = (refl, h)
stream_of-nil (p ∷ ps) d h e =
    absurd (omega (arith, ap length e, length-append (packet_bytes p) (stream_of ps)))

read_calls_next :
    {S P : Type 0} (base : PacketFactory S P) (fuel now : ℕ) (i i1 : Input S P)
    (reads : List (List ℕ)) (calls : List (List (List ℕ)))
    → on_ready_to_read base fuel now true i reads ≡ some i1
    → read_calls base fuel now i (reads ∷ calls) ≡ read_calls base fuel now i1 calls
unfolding read_calls
read_calls_next base fuel now i i1 reads calls e = rw (e, read_calls)

read_calls-listening :
    (fuel now : ℕ) (hp : Bool) (d : List ℕ) (f : Factory) (got ps : List Packet) (t : ℕ)
    (es : List Event) (calls : List (List (List ℕ)))
    → ArePackets ps
    → length ps < fuel
    → Partial d ps
    → d ++ arrived calls ≡ stream_of ps
    → (i : Input Factory Packet) × (read_calls data_frames_factory fuel now
          (listening hp d f got t es)
          calls
        ≡ some i)
      × (i.received ≡ got ++ ps)
      × (i.buffer ≡ [])
unfolding read_calls arrived
read_calls-listening fuel now hp d f got ps t es [] v h k e =
    let z = stream_of-nil ps d k (sym (append-nil d) ∙ e) in
    (listening hp d f got t es, refl, sym (append-nil got) ∙ ap (λ l. got ++ l) (sym z.0), z.1)
read_calls-listening fuel now hp d f got ps t es (reads ∷ calls) v h k e =
    let (r, l, c) =
      packet_loop-stream_of fuel f ps (d ++ concat reads) (arrived calls) v h
        (append_assoc d (concat reads) (arrived calls) ∙ e) in
    let (t1, es1, s) = on_ready_to_read-listening fuel now hp d f got t es reads r l in
    let (i, m, o, b) =
      read_calls-listening fuel now hp r.2 r.1 (got ++ r.0) c.left t1 es1 calls c.valid
        (omega (arith, ap length c.whole, length-append r.0 c.left)) c.partly c.bytes in
    (
      i,
      read_calls_next data_frames_factory fuel now (listening hp d f got t es) _ reads calls s ∙ m,
      o ∙ append_assoc got r.0 c.left ∙ ap (λ l1. got ++ l1) (sym c.whole),
      b,
    )

-- When the bytes of well-formed packets arrive, in whatever pieces and calls, on a handler with an
-- empty input buffer, all calls end, exactly these packets are handed on, in their order, and no
-- byte is left in the buffer; one round more than there are packets is enough for each call.
pub read_calls-stream_of :
    (fuel now : ℕ) (has_parent : Bool) (f : Factory) (ps : List Packet)
    (calls : List (List (List ℕ)))
    → ArePackets ps
    → length ps < fuel
    → arrived calls ≡ stream_of ps
    → (i : Input Factory Packet) × (read_calls data_frames_factory fuel now
          (listening has_parent [] f [] 0 [])
          calls
        ≡ some i)
      × (i.received ≡ ps)
      × (i.buffer ≡ [])
read_calls-stream_of fuel now has_parent f ps calls v h e =
    read_calls-listening fuel now has_parent [] f [] ps 0 [] calls v h (nothing_yet ps) e
