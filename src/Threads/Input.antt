-- ===== src/Threads/Input.antt =====
-- The receiving side of Threads/ThreadHandler.cpp: what the device gives is collected in the input
-- buffer, and the packet factory takes packets from the front of the buffer as long as it finds
-- any. PacketFactoryBase is an interface: its subclass is an argument, with its state. The loop that
-- extracts packets runs on fuel. What a call reads of the device, until this has no more, is an
-- argument; the events are what the virtual callbacks, the traffic counter and the parent thread
-- are told, the last one first. A packet that is handed on does not touch the input buffer.
pub mod Loop
pub mod Chunks
mod Tests
use threader.Prelude.{
  ℕ, zero, suc, ◌+◌, ◌%◌, Bool, true, false, Option, none, some, List, [], ◌∷◌, ◌++◌, if◌then◌else◌,
  length,
}

-- `PacketFactoryBase`, for packets of type `P` and a factory with state `S`; `none` if an extraction
-- does not end.
pub record PacketFactory (S P : Type 0) : Type 0 where
  pub try_extract_packet : S → List ℕ → Option (Option P × S × List ℕ)
  pub last_result : S → ℕ

pub data Event : Type 0 where
  read_data : List ℕ → Event
  counted : ℕ → Event
  device_data_input : List ℕ → Event
  device_error : ℕ → Event

-- `factory` is `none` without a packet factory; `received` are the packets handed on, in order.
pub record Input (S P : Type 0) : Type 0 where
  pub buffer : List ℕ
  pub factory : Option S
  pub portioned_io : Bool
  pub has_parent : Bool
  pub received : List P
  pub last_packet_received : ℕ
  pub events : List Event

-- The bytes of a list of blocks.
unfoldable pub concat : List (List ℕ) → List ℕ
concat [] = []
concat (b ∷ bs) = b ++ concat bs

-- The events of the reading loop, for input in fixed portions.
unfoldable pub portions : List (List ℕ) → List Event → List Event
portions [] es = es
portions (b ∷ bs) es = portions bs (read_data b ∷ es)

module _ {S P : Type 0} where
  -- The loop of `tryExtractPacket` calls: the packets, and the factory and the bytes that they leave.
  unfoldable pub packet_loop : PacketFactory S P → ℕ → S → List ℕ → Option (List P × S × List ℕ)
  packet_loop base zero s d = none
  packet_loop base (suc fuel) s d = elim (base.try_extract_packet s d) [
    | none ↦ none
    | some r ↦ elim r.0 [
      | none ↦ some ([], r.1, r.2)
      | some p ↦ elim (packet_loop base fuel r.1 r.2) [
        | none ↦ none
        | some t ↦ some (p ∷ t.0, t.1, t.2)
      ]
    ]
  ]

  abbrev pub tell : Event → Input S P → Input S P
  tell e i = record i { events = e ∷ i.events }

  -- Without a packet factory all bytes go to the parent thread.
  unfoldable pub forward_input : Input S P → Input S P
  forward_input i =
      let i1 : Input S P = if i.has_parent then tell (device_data_input i.buffer) i else i in
      record i1 { buffer = [] }

  -- The packets of the buffer are handed on at the time `now`.
  unfoldable pub hand_on : ℕ → Input S P → List P → Input S P
  hand_on now i [] = i
  hand_on now i (p ∷ ps) =
      hand_on now (record i { received = i.received ++ (p ∷ []); last_packet_received = now }) ps

  unfoldable pub extract_packets : PacketFactory S P → ℕ → ℕ → Input S P → S → Option (Input S P)
  extract_packets base fuel now i s = elim (packet_loop base fuel s i.buffer) [
    | none ↦ none
    | some r ↦ some (
        tell (device_error (base.last_result r.1 % 256))
          (record (hand_on now i r.0) { factory = some r.1; buffer = r.2 }))
  ]

  -- What follows the reading loop, for input that is no portions.
  unfoldable pub process_input : PacketFactory S P → ℕ → ℕ → Input S P → List ℕ → Option (Input S P)
  process_input base fuel now i bytes =
      let i1 = tell (read_data bytes) (record i { buffer = i.buffer ++ bytes }) in
      elim i.factory [
        | none ↦ some (forward_input i1)
        | some s ↦ extract_packets base fuel now i1 s
      ]

  -- `slotOnReadyToRead`, for a sender that is connected or not.
  unfoldable pub on_ready_to_read :
      PacketFactory S P → ℕ → ℕ → Bool → Input S P → List (List ℕ) → Option (Input S P)
  on_ready_to_read base fuel now false i reads = some i
  on_ready_to_read base fuel now true i reads =
      if i.portioned_io
      then some (tell (counted 0) (record i { events = portions reads i.events }))
      else process_input base fuel now (tell (counted (length (concat reads))) i) (concat reads)

  -- Calls of `slotOnReadyToRead` in a row, each with what it reads.
  unfoldable pub read_calls :
      PacketFactory S P → ℕ → ℕ → Input S P → List (List (List ℕ)) → Option (Input S P)
  read_calls base fuel now i [] = some i
  read_calls base fuel now i (reads ∷ calls) = elim (on_ready_to_read base fuel now true i reads) [
    | none ↦ none
    | some i1 ↦ read_calls base fuel now i1 calls
  ]
