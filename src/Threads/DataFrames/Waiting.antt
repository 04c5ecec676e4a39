-- ===== src/Threads/DataFrames/Waiting.antt =====
-- The packets behind the current one wait without a number, whatever a ThreadDataFrames is asked to
-- do (Threads/ThreadDataFrames.cpp).
use threader.Prelude.{
  ℕ, suc, ◌+◌, ◌≤◌, ◌<◌, ◌≡◌, ◌≢◌, Option, none, some, List, [], ◌∷◌, ◌++◌, arith, Bool-cases, inl,
  inr,
}
use threader.Frames.Packets.{Packet}
use threader.Threads.DataFrames.{Thread, update, id_of, remove_packets, send_packet}

-- The packets have no number.
abbrev pub Waiting : (ℕ → Packet) → List ℕ → Type 0
Waiting store [] = Unit {0}
Waiting store (r ∷ rs) = (id_of store r ≡ 0) × Waiting store rs

-- The references rise from `lo` and stay below `hi`.
abbrev pub Rising : ℕ → List ℕ → ℕ → Type 0
Rising lo [] hi = lo ≤ hi
Rising lo (r ∷ rs) hi = (lo ≤ r) × Rising (suc r) rs hi

-- All but the first wait.
abbrev pub TailWaiting : (ℕ → Packet) → List ℕ → Type 0
TailWaiting store [] = Unit {0}
TailWaiting store (r ∷ rs) = Waiting store rs

-- The current packet is the first of the queue and has a number; all others wait.
abbrev pub Shape : (ℕ → Packet) → Option ℕ → List ℕ → Type 0
Shape store none rs = Waiting store rs
Shape store (some c) [] = ⊥
Shape store (some c) (r ∷ rs) = (r ≡ c) × (id_of store r ≢ 0) × Waiting store rs

abbrev pub IsQueue : (ℕ → Packet) → ℕ → Option ℕ → Option (List ℕ) → Type 0
IsQueue store next current none = current ≡ none
IsQueue store next current (some rs) = Rising 0 rs next × Shape store current rs

abbrev pub IsValid : Thread → Type 0
IsValid s = (s.factory.packet_id < 0x1fffffff) × IsQueue s.store s.next_ref s.current s.queue

pub Rising-bound : (lo : ℕ) (rs : List ℕ) (hi : ℕ) → Rising lo rs hi → lo ≤ hi
Rising-bound lo [] hi h = h
Rising-bound lo (r ∷ rs) hi h = omega (arith, Rising-bound (suc r) rs hi h.1)

Rising-lower : (lo lo' : ℕ) (rs : List ℕ) (hi : ℕ) → lo' ≤ lo → Rising lo rs hi → Rising lo' rs hi
Rising-lower lo lo' [] hi k h = omega arith
Rising-lower lo lo' (r ∷ rs) hi k h = (omega arith, h.1)

pub Rising-append :
    (lo : ℕ) (rs : List ℕ) (hi : ℕ) → Rising lo rs hi → Rising lo (rs ++ (hi ∷ [])) (hi + 1)
Rising-append lo [] hi h = (h, omega arith)
Rising-append lo (r ∷ rs) hi h = (h.0, Rising-append (suc r) rs hi h.1)

-- A change below or above the references is not seen.
pub Waiting-update_below :
    (store : ℕ → Packet) (c : ℕ) (p : Packet) (lo : ℕ) (rs : List ℕ) (hi : ℕ)
    → c < lo
    → Rising lo rs hi
    → Waiting store rs
    → Waiting (update store c p) rs
Waiting-update_below store c p lo [] hi k h w = tt
Waiting-update_below store c p lo (r ∷ rs) hi k h w =
    (ground arith, Waiting-update_below store c p (suc r) rs hi (omega arith) h.1 w.1)

pub Waiting-update_above :
    (store : ℕ → Packet) (p : Packet) (lo : ℕ) (rs : List ℕ) (hi : ℕ)
    → Rising lo rs hi
    → Waiting store rs
    → Waiting (update store hi p) rs
Waiting-update_above store p lo [] hi h w = tt
Waiting-update_above store p lo (r ∷ rs) hi h w =
    let b = Rising-bound (suc r) rs hi h.1 in
    (ground arith, Waiting-update_above store p (suc r) rs hi h.1 w.1)

pub Waiting-append :
    (store : ℕ → Packet) (rs : List ℕ) (c : ℕ)
    → Waiting store rs
    → id_of store c ≡ 0
    → Waiting store (rs ++ (c ∷ []))
Waiting-append store [] c w e = (e, tt)
Waiting-append store (r ∷ rs) c w e = (w.0, Waiting-append store rs c w.1 e)

pub remove-Rising :
    (store : ℕ → Packet) (id lo : ℕ) (rs : List ℕ) (hi : ℕ)
    → Rising lo rs hi
    → Rising lo (remove_packets store id rs).1 hi
unfolding remove_packets
remove-Rising store id lo [] hi h = h
remove-Rising store id lo (r ∷ rs) hi h =
    let ih = remove-Rising store id (suc r) rs hi h.1 in
    ground (arith, ih, Rising-lower (suc r) lo (remove_packets store id rs).1 hi)

pub remove-Waiting :
    (store : ℕ → Packet) (id : ℕ) (rs : List ℕ)
    → Waiting store rs
    → Waiting store (remove_packets store id rs).1
unfolding remove_packets
remove-Waiting store id [] w = tt
remove-Waiting store id (r ∷ rs) w = ground (arith, remove-Waiting store id rs w.1)

pub Waiting-tail : (store : ℕ → Packet) (rs : List ℕ) → Waiting store rs → TailWaiting store rs
Waiting-tail store [] w = tt
Waiting-tail store (r ∷ rs) w = w.1

pub remove-TailWaiting :
    (store : ℕ → Packet) (id : ℕ) (rs : List ℕ)
    → TailWaiting store rs
    → TailWaiting store (remove_packets store id rs).1
unfolding remove_packets
remove-TailWaiting store id [] w = tt
remove-TailWaiting store id (r ∷ rs) w =
    let kept = remove-Waiting store id rs w in
    ground (arith, kept, Waiting-tail store (remove_packets store id rs).1 kept)

-- Sending does not touch the queue.
pub send_packet-IsValid :
    (now : ℕ) (s : Thread) (p : Option Packet) → IsValid s → IsValid (send_packet now s p).1
unfolding send_packet
send_packet-IsValid now s none v = v
send_packet-IsValid now s (some p) v = elim (Bool-cases s.is_connected) [
  | inl e ↦ rw (e, send_packet) v
  | inr e ↦ rw (e, send_packet) v
]
