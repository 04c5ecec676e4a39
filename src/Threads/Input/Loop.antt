-- ===== src/Threads/Input/Loop.antt =====
-- The loop that extracts packets from bytes that have come in part (Threads/ThreadHandler.cpp with
-- Frames/DataFramesPackets.cpp).
use threader.Prelude.{
  ℕ, zero, suc, ◌+◌, ◌≤◌, ◌<◌, ◌≡◌, refl, ap, subst, ◌∙◌, sym, none, some, List, [], ◌∷◌, ◌++◌,
  arith, inl, inr, ltb, length, drop, length-append, length-drop, append-split, Bool-cases,
}
use threader.Frames.Packets.{
  Packet, Factory, not_enough_for_header, not_enough_for_body, header_bytes, packet_bytes,
  try_extract_packet, find_header, short, last_result,
}
use threader.Frames.Packets.Layout.{length-header_bytes}
use threader.Frames.Packets.RoundTrip.{IsPacket, synchronise-short, try_extract_packet-packet_bytes}
use threader.Frames.Packets.Sync.{find_header_lem}
use threader.Frames.Packets.Faults.{try_extract_packet-part}
use threader.Threads.Input.{PacketFactory, packet_loop}

-- DataFramesPacketFactory as a packet factory.
abbrev pub data_frames_factory : PacketFactory Factory Packet
data_frames_factory = record {
  try_extract_packet = λ f d. try_extract_packet (length d + 1) f d;
  last_result = last_result;
}

-- The bytes of packets in a row.
unfoldable pub stream_of : List Packet → List ℕ
stream_of [] = []
stream_of (p ∷ ps) = packet_bytes p ++ stream_of ps

abbrev pub ArePackets : List Packet → Type 0
ArePackets [] = Unit {0}
ArePackets (p ∷ ps) = IsPacket p × ArePackets ps

-- The bytes do not reach to the end of the first packet.
abbrev pub Partial : List ℕ → List Packet → Type 0
Partial d [] = d ≡ []
Partial d (p ∷ ps) = length d < length (packet_bytes p)

pub length-packet_bytes : (p : Packet) → length (packet_bytes p) ≡ 13 + length p.body
unfolding packet_bytes
length-packet_bytes p =
    omega (arith, length-append (header_bytes p.header) p.body, length-header_bytes p.header)

-- Fewer bytes than a header.
try_extract_packet-short :
    (f : Factory) (d : List ℕ)
    → length d < 13
    → try_extract_packet (length d + 1) f d
      ≡ some (none, record f { last = some not_enough_for_header }, d)
unfolding try_extract_packet
try_extract_packet-short f d h =
    let s : find_header (length d + 1) d ≡ some (short d) =
      find_header_lem (length d + 1) d (omega arith) ∙ ap some (synchronise-short d h) in
    rw (s, try_extract_packet)

-- A part of a packet is no packet and is left in place.
try_extract_packet-begun :
    (f : Factory) (p : Packet) (d rest : List ℕ)
    → IsPacket p
    → length d < length (packet_bytes p)
    → d ++ rest ≡ packet_bytes p
    → (f1 : Factory) × (try_extract_packet (length d + 1) f d ≡ some (none, f1, d))
unfolding packet_bytes
try_extract_packet-begun f p d rest v h e = elim (Bool-cases (ltb (length d) 13)) [
  | inl few ↦
      (record f { last = some not_enough_for_header }, try_extract_packet-short f d (ground arith))
  | inr many ↦
      let hd = header_bytes p.header in
      let part = drop (length hd) d in
      let enough : length hd ≤ length d = ground (arith, length-header_bytes p.header) in
      let s = append-split hd d p.body rest enough e in
      let len : length part < p.header.size =
        omega (arith, v.size, length-drop (length hd) d, length-append hd p.body) in
      let t : try_extract_packet (length d + 1) f (hd ++ part)
          ≡ some (none, record f { last = some not_enough_for_body }, hd ++ part) =
        try_extract_packet-part (length d + 1) f p.header part v.sized v.known len
          (omega (arith, ap length s.0)) in
      (
        record f { last = some not_enough_for_body },
        subst
            (λ b.
              try_extract_packet (length d + 1) f b
              ≡ some (none, record f { last = some not_enough_for_body }, b))
            (sym s.0) t,
      )
]

module _ {S P : Type 0} (base : PacketFactory S P) where
  pub packet_loop-end :
      (fuel : ℕ) (s s1 : S) (d d1 : List ℕ)
      → base.try_extract_packet s d ≡ some (none, s1, d1)
      → packet_loop base (suc fuel) s d ≡ some ([], s1, d1)
  unfolding packet_loop
  packet_loop-end fuel s s1 d d1 e = rw (e, packet_loop)

  pub packet_loop-next :
      (fuel : ℕ) (s s1 : S) (d d1 : List ℕ) (p : P) (t : List P × S × List ℕ)
      → base.try_extract_packet s d ≡ some (some p, s1, d1)
      → packet_loop base fuel s1 d1 ≡ some t
      → packet_loop base (suc fuel) s d ≡ some (p ∷ t.0, t.1, t.2)
  unfolding packet_loop
  packet_loop-next fuel s s1 d d1 p t e k = rw (e, packet_loop) (rw k)

-- What the loop leaves of the packets `ps` when `rest` has not arrived yet.
pub record Received (ps : List Packet) (rest : List ℕ) (r : List Packet × Factory × List ℕ)
    : Type 0 where
  pub left : List Packet
  pub whole : ps ≡ r.0 ++ left
  pub bytes : r.2 ++ rest ≡ stream_of left
  pub partly : Partial r.2 left
  pub valid : ArePackets left

pub packet_loop-stream_of :
    (fuel : ℕ) (f : Factory) (ps : List Packet) (d rest : List ℕ)
    → ArePackets ps
    → length ps < fuel
    → d ++ rest ≡ stream_of ps
    → (r : List Packet × Factory × List ℕ) × (packet_loop data_frames_factory fuel f d ≡ some r)
      × Received ps rest r
unfolding stream_of
packet_loop-stream_of zero f ps d rest v h e = absurd (omega arith)
packet_loop-stream_of (suc fuel) f [] [] rest v h e = (
  ([], record f { last = some not_enough_for_header }, []),
  packet_loop-end data_frames_factory fuel f _ [] [] (try_extract_packet-short f [] (omega arith)),
  record { left = []; whole = refl; bytes = e; partly = refl; valid = tt },
)
packet_loop-stream_of (suc fuel) f [] (x ∷ d) rest v h e = absurd (omega (arith, ap length e))
packet_loop-stream_of (suc fuel) f (p ∷ ps) d rest v h e =
    elim (Bool-cases (ltb (length d) (length (packet_bytes p)))) [
      | inl few ↦
          let less : length d < length (packet_bytes p) = ground arith in
          let s = append-split d (packet_bytes p) rest (stream_of ps) (omega arith) (sym e) in
          let b =
            try_extract_packet-begun f p d (drop (length d) (packet_bytes p)) v.0 less (sym s.0) in
          (
            ([], b.0, d),
            packet_loop-end data_frames_factory fuel f b.0 d d b.1,
            record { left = p ∷ ps; whole = refl; bytes = e; partly = less; valid = v },
          )
      | inr many ↦
          let d1 = drop (length (packet_bytes p)) d in
          let s = append-split (packet_bytes p) d (stream_of ps) rest (ground arith) e in
          let t : try_extract_packet (length d + 1) f d ≡ some (some p, f, d1) =
            ap (try_extract_packet (length d + 1) f) s.0
            ∙ try_extract_packet-packet_bytes (length d + 1) f p d1 v.0
                (omega (arith, ap length s.0)) in
          let (r, k, c) = packet_loop-stream_of fuel f ps d1 rest v.1 (omega arith) s.1 in
          (
            (p ∷ r.0, r.1, r.2),
            packet_loop-next data_frames_factory fuel f f d d1 p r t k,
            record {
              left = c.left;
              whole = ap (λ l. p ∷ l) c.whole;
              bytes = c.bytes;
              partly = c.partly;
              valid = c.valid;
            },
          )
    ]
