-- ===== src/Threads/Output/Delivery.antt =====
-- The bytes that the sending side of ThreadHandler hands to its device, against a pipe of bytes
-- (Threads/ThreadHandler.cpp).
use threader.Prelude.{
  ℕ, zero, suc, ◌+◌, ◌-◌, ◌≤◌, ◌<◌, ◌≡◌, refl, ap, ap₂, ◌∙◌, sym, true, false, List, [], ◌∷◌, ◌++◌,
  arith, if◌then◌else◌, length, take, drop, length-append, length-take, length-drop, append-nil,
  append_assoc, take-append-drop, drop_all,
}
use threader.Prelude.Int.{ℤ, pos, negsuc, pos_part, ltb_ℤ, ◌+ℤ◌, ◌-ℤ◌}
use threader.Utils.Stream
use threader.Utils.Stream.{Stream, overwrite}
use threader.Utils.Stream.Core.{at, set_position-at, write-at}
use threader.Utils.Stream.Typed.{IsFiller, overwrite_end}
use threader.Threads.Output.{
  Output, start, buffer, remove_front, on_ready_to_write, send_packet, clear_buffers,
  on_connection_state_changed,
}

-- The sending side of a connection with `d` to send and `w` handed over, the cursor behind `d`.
abbrev pub open_output : List ℕ → List ℕ → ℕ → Output
open_output d w t = record {
  stream = at d (length d);
  is_connected = true;
  written = w;
  last_packet_sent = t;
}

-- A device takes no more bytes than it is given.
abbrev pub IsDevice : (List ℕ → ℤ) → Type 0
IsDevice device = (b : List ℕ) → pos_part (device b) ≤ length b

remove_front-open :
    (d w : List ℕ) (t k : ℕ)
    → k ≤ length d
    → remove_front (open_output d w t) k ≡ open_output (drop k d) (w ++ take k d) t
unfolding remove_front ◌-ℤ◌
remove_front-open d w t k h =
    let back : pos (length d) -ℤ pos k ≡ pos (length (drop k d)) =
      ground (arith, length-drop k d) in
    let moved : Stream.set_position (at (drop k d) (length d)) (pos (length d) -ℤ pos k)
        ≡ at (drop k d) (length (drop k d)) =
      ap (Stream.set_position (at (drop k d) (length d))) back
      ∙ set_position-at (drop k d) (length d) (length (drop k d)) (omega arith) in
    ap (λ s. record (open_output d (w ++ take k d) t) { stream = s }) moved

open-none : (d w : List ℕ) (t : ℕ) → open_output d w t ≡ open_output (drop 0 d) (w ++ take 0 d) t
open-none d w t = ap (λ v. open_output d v t) (sym (append-nil w))

taken-open :
    (taken : ℤ) (d w : List ℕ) (t : ℕ)
    → pos_part taken ≤ length d
    → (if ltb_ℤ (pos 0) taken
        then remove_front (open_output d w t) (pos_part taken)
        else open_output d w t)
      ≡ open_output (drop (pos_part taken) d) (w ++ take (pos_part taken) d) t
taken-open (pos zero) d w t h = open-none d w t
taken-open (pos (suc k)) d w t h = ground (arith, remove_front-open d w t (suc k) h)
taken-open (negsuc k) d w t h = ground (arith, open-none d w t)

on_ready_to_write-open :
    (device : List ℕ → ℤ) (d w : List ℕ) (t : ℕ)
    → IsDevice device
    → let k = pos_part (device d) in
      on_ready_to_write (open_output d w t) device ≡ open_output (drop k d) (w ++ take k d) t
unfolding on_ready_to_write
on_ready_to_write-open device [] w t h =
    let z : 0 ≡ pos_part (device []) = omega (arith, h []) in
    open-none [] w t ∙ ap (λ k. open_output (drop k []) (w ++ take k []) t) z
on_ready_to_write-open device (x ∷ d) w t h =
    rw (taken-open (device (x ∷ d)) (x ∷ d) w t (h (x ∷ d))) (ground arith)

-- What is left to send, and what was handed over, after a packet.
pub send_packet-open :
    (junk : ℕ → List ℕ) (now : ℕ) (device : List ℕ → ℤ) (d w v : List ℕ) (t : ℕ)
    → IsFiller junk
    → IsDevice device
    → let k = pos_part (device (d ++ v)) in
      send_packet junk now (open_output d w t) v device
      ≡ (true, open_output (drop k (d ++ v)) (w ++ take k (d ++ v)) now)
unfolding send_packet
send_packet-open junk now device d w v t f h =
    let wrote : Stream.write junk (at d (length d)) v ≡ (true, at (d ++ v) (length (d ++ v))) =
      write-at junk d (length d) v (f (length d + length v - length d)) (omega arith)
      ∙ ap₂ (λ b k. (true, at b k)) (overwrite_end d v) (sym (length-append d v)) in
    ap
      (λ r. (
        r.0,
        record (on_ready_to_write (record (open_output d w t) { stream = r.1 }) device) {
          last_packet_sent = now;
        },
      ))
      wrote
    ∙ ap (λ o. (true, record o { last_packet_sent = now }))
        (on_ready_to_write-open device (d ++ v) w t h)

-- What the sending side is asked for while a connection lasts: a packet of some bytes, or the device
-- is ready for more.
pub data Call : Type 0 where
  sends : ℕ → List ℕ → (List ℕ → ℤ) → Call
  ready : (List ℕ → ℤ) → Call

unfoldable pub step : (ℕ → List ℕ) → Output → Call → Output
step junk o (sends now v device) = (send_packet junk now o v device).1
step junk o (ready device) = on_ready_to_write o device

unfoldable pub run : (ℕ → List ℕ) → Output → List Call → Output
run junk o [] = o
run junk o (c ∷ cs) = run junk (step junk o c) cs

-- The pipe of bytes: what goes in.
unfoldable pub accepted : List Call → List ℕ
accepted [] = []
accepted (sends now v device ∷ cs) = v ++ accepted cs
accepted (ready device ∷ cs) = accepted cs

abbrev pub Devices : List Call → Type 0
Devices [] = Unit {0}
Devices (sends now v device ∷ cs) = IsDevice device × Devices cs
Devices (ready device ∷ cs) = IsDevice device × Devices cs

-- A state that is open, with `sum` handed over or waiting, in this order.
record Pipes (sum : List ℕ) (o : Output) : Type 0 where
  waiting : List ℕ
  gone : List ℕ
  time : ℕ
  is_open : o ≡ open_output waiting gone time
  in_order : gone ++ waiting ≡ sum

cut_in_order : (k : ℕ) (w d : List ℕ) → (w ++ take k d) ++ drop k d ≡ w ++ d
cut_in_order k w d = append_assoc w (take k d) (drop k d) ∙ ap (λ t. w ++ t) (take-append-drop k d)

module _ (junk : ℕ → List ℕ) (filler : IsFiller junk) where
  run-open :
      (cs : List Call) (d w : List ℕ) (t : ℕ)
      → Devices cs
      → Pipes ((w ++ d) ++ accepted cs) (run junk (open_output d w t) cs)
  unfolding run step accepted
  run-open [] d w t h = record {
    waiting = d;
    gone = w;
    time = t;
    is_open = refl;
    in_order = sym (append-nil (w ++ d));
  }
  run-open (sends now v device ∷ cs) d w t h =
      let k = pos_part (device (d ++ v)) in
      let ih = run-open cs (drop k (d ++ v)) (w ++ take k (d ++ v)) now h.1 in
      record {
        waiting = ih.waiting;
        gone = ih.gone;
        time = ih.time;
        is_open =
            ap (λ r. run junk r.1 cs) (send_packet-open junk now device d w v t filler h.0)
            ∙ ih.is_open;
        in_order =
            ih.in_order
            ∙ ap (λ x. x ++ accepted cs) (cut_in_order k w (d ++ v) ∙ sym (append_assoc w d v))
            ∙ append_assoc (w ++ d) v (accepted cs);
      }
  run-open (ready device ∷ cs) d w t h =
      let k = pos_part (device d) in
      let ih = run-open cs (drop k d) (w ++ take k d) t h.1 in
      record {
        waiting = ih.waiting;
        gone = ih.gone;
        time = ih.time;
        is_open = ap (λ o. run junk o cs) (on_ready_to_write-open device d w t h.0) ∙ ih.is_open;
        in_order = ih.in_order ∙ ap (λ x. x ++ accepted cs) (cut_in_order k w d);
      }

  -- While a connection lasts, the bytes handed to the device followed by those that wait in the
  -- buffer are the bytes of all packets sent, in order, whatever part of the buffer the device takes
  -- each time, and the cursor stands behind the last byte of the buffer.
  pub run-start-in_order :
      (now : ℕ) (cs : List Call)
      → Devices cs
      → let o = run junk (start true now) cs in
        (o.written ++ buffer o ≡ accepted cs) × (o.stream ≡ at (buffer o) (length (buffer o)))
  unfolding start Stream.new
  run-start-in_order now cs h =
      let p = run-open cs [] [] now h in
      (
        ap (λ o. o.written ++ buffer o) p.is_open ∙ p.in_order,
        ap (λ o. o.stream) p.is_open ∙ sym (ap (λ o. at (buffer o) (length (buffer o))) p.is_open),
      )

-- A write on an empty array with the cursor `n` bytes behind its end.
write-stale :
    (junk : ℕ → List ℕ) (n : ℕ) (v : List ℕ)
    → IsFiller junk
    → 0 < n
    → let b = take n (junk (n + length v)) ++ v in
      Stream.write junk (at [] n) v ≡ (true, at b (length b))
unfolding Stream.write Stream.set_position ◌+ℤ◌
write-stale junk n v f h =
    let fresh = junk (n + length v) in
    let size = f (n + length v) in
    let rest : drop (n + length v) fresh ≡ [] =
      drop_all (n + length v) fresh (omega (arith, size)) in
    ground (arith, rest, append-nil v, length-append (take n fresh) v, length-take n fresh, size)

-- A connection that is lost with `d` still to send, at least one byte, leaves the cursor where it
-- was. On the next connection the device is offered as many uninitialised bytes as `d` had in front
-- of the first packet.
pub send_packet-on_connection_state_changed :
    (junk : ℕ → List ℕ) (now : ℕ) (device : List ℕ → ℤ) (d w v : List ℕ) (t : ℕ)
    → IsFiller junk
    → IsDevice device
    → 0 < length d
    → let lost = on_connection_state_changed now (open_output d w t) false in
      let again = on_connection_state_changed now lost true in
      let b = take (length d) (junk (length d + length v)) ++ v in
      let k = pos_part (device b) in
      send_packet junk now again v device ≡ (true, open_output (drop k b) (w ++ take k b) now)
unfolding send_packet on_connection_state_changed clear_buffers
send_packet-on_connection_state_changed junk now device d w v t f h n =
    let b = take (length d) (junk (length d + length v)) ++ v in
    ap
      (λ r. (
        r.0,
        record (on_ready_to_write (record (open_output d w now) { stream = r.1 }) device) {
          last_packet_sent = now;
        },
      ))
      (write-stale junk (length d) v f n)
    ∙ ap (λ o. (true, record o { last_packet_sent = now }))
        (on_ready_to_write-open device b w now h)
