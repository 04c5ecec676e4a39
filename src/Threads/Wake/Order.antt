-- ===== src/Threads/Wake/Order.antt =====
-- The signals to a thread come in order (Threads/PollerThread.cpp).
use threader.Prelude.{
  ℕ, ◌+◌, ◌-◌, ◌≤◌, ◌<◌, ◌≡◌, refl, ap, ◌∙◌, sym, Bool, true, false, List, [], ◌∷◌, ◌++◌, ltb,
  if◌then◌else◌, length, map, arith, append-nil, append_assoc, length-append, length-map,
}
use threader.Threads.Wake.{
  ThreadSignal, terminate, terminate_child_threads, wake_up, code, PollerThread, new_poller_thread,
  send_signal, dispatch, process,
}

-- A signal is sent, or poll reports the pipe.
pub data Op : Type 0 where
  sends : ThreadSignal → Op
  event : ℕ → Op

unfoldable pub step : ℕ → Op → PollerThread → PollerThread
step capacity (sends s) t = send_signal capacity s t
step capacity (event junk) t = (process junk true t).1

unfoldable pub run : ℕ → List Op → PollerThread → PollerThread
run capacity [] t = t
run capacity (o ∷ os) t = run capacity os (step capacity o t)

-- The signals that find room, when `n` wait at the start; poll reports a pipe only while some wait.
abbrev pub taken : ℕ → ℕ → List Op → List ThreadSignal
taken capacity n [] = []
taken capacity n (sends s ∷ os) =
    if ltb n capacity then s ∷ taken capacity (n + 1) os else taken capacity n os
taken capacity n (event junk ∷ os) = taken capacity (n - 1) os

abbrev pub refused : ℕ → ℕ → List Op → ℕ
refused capacity n [] = 0
refused capacity n (sends s ∷ os) =
    if ltb n capacity then refused capacity (n + 1) os else refused capacity n os + 1
refused capacity n (event junk ∷ os) = refused capacity (n - 1) os

abbrev pub IsReported : ℕ → ℕ → List Op → Type 0
IsReported capacity n [] = 0 ≤ 0
IsReported capacity n (sends s ∷ os) = IsReported capacity (if ltb n capacity then n + 1 else n) os
IsReported capacity n (event junk ∷ os) = (0 < n) × IsReported capacity (n - 1) os

dispatch-code :
    (s : ThreadSignal) (t : PollerThread)
    → dispatch (code s) t ≡ record t { handled = t.handled ++ (s ∷ []) }
unfolding dispatch code
dispatch-code terminate t = refl
dispatch-code terminate_child_threads t = refl
dispatch-code wake_up t = refl

map-append : (xs ys : List ThreadSignal) → map code (xs ++ ys) ≡ map code xs ++ map code ys
map-append [] ys = refl
map-append (x ∷ xs) ys = ap (λ (l : List ℕ). code x ∷ l) (map-append xs ys)

-- The signals `ws` wait in the pipe.
abbrev at : List ThreadSignal → List ThreadSignal → ℕ → PollerThread
at ws hs n = record { pipe = map code ws; handled = hs; lost = n }

send-at :
    (capacity : ℕ) (s : ThreadSignal) (ws hs : List ThreadSignal) (n : ℕ)
    → send_signal capacity s (at ws hs n)
      ≡ (if ltb (length ws) capacity then at (ws ++ (s ∷ [])) hs n else at ws hs (n + 1))
unfolding send_signal
send-at capacity s ws hs n = ground (arith, length-map ws code, map-append ws (s ∷ []))

event-at :
    (capacity junk : ℕ) (w : ThreadSignal) (ws hs : List ThreadSignal) (n : ℕ)
    → step capacity (event junk) (at (w ∷ ws) hs n) ≡ at ws (hs ++ (w ∷ [])) n
unfolding step process
event-at capacity junk w ws hs n = dispatch-code w (at ws hs n)

-- What is left after operations: the signals that wait, behind those handled, are all that were taken.
abbrev pub Leaves : PollerThread → List ThreadSignal → ℕ → Type 0
Leaves t all lost =
    (ws : List ThreadSignal) × (t.pipe ≡ map code ws) × (t.handled ++ ws ≡ all) × (t.lost ≡ lost)

send-room :
    (capacity : ℕ) (s : ThreadSignal) (ws hs : List ThreadSignal) (n : ℕ)
    → ltb (length ws) capacity ≡ true
    → step capacity (sends s) (at ws hs n) ≡ at (ws ++ (s ∷ [])) hs n
unfolding step
send-room capacity s ws hs n e = ground (arith, send-at capacity s ws hs n)

send-full :
    (capacity : ℕ) (s : ThreadSignal) (ws hs : List ThreadSignal) (n : ℕ)
    → ltb (length ws) capacity ≡ false
    → step capacity (sends s) (at ws hs n) ≡ at ws hs (n + 1)
unfolding step
send-full capacity s ws hs n e = ground (arith, send-at capacity s ws hs n)

Leaves-equal :
    (t u : PollerThread) (all other : List ThreadSignal) (l k : ℕ)
    → u ≡ t
    → all ≡ other
    → l ≡ k
    → Leaves t all l
    → Leaves u other k
Leaves-equal t u all other l k e f g (ws, p, h, q) = (
  ws,
  ap (λ (x : PollerThread). x.pipe) e ∙ p,
  ap (λ (x : PollerThread). x.handled ++ ws) e ∙ h ∙ f,
  ap (λ (x : PollerThread). x.lost) e ∙ q ∙ g,
)

run-at :
    (capacity : ℕ) (os : List Op) (ws hs : List ThreadSignal) (n m : ℕ)
    → m ≡ length ws
    → IsReported capacity m os
    → Leaves
        (run capacity os (at ws hs n))
        ((hs ++ ws) ++ taken capacity m os)
        (n + refused capacity m os)
unfolding run
run-at capacity [] ws hs n m q r = (ws, refl, sym (append-nil (hs ++ ws)), omega arith)
run-at capacity (sends s ∷ os) ws hs n m q r =
    elim (ltb m capacity)
        as (λ (b : Bool).
          ltb m capacity ≡ b
          → IsReported capacity (if b then m + 1 else m) os
          → Leaves (run capacity os (step capacity (sends s) (at ws hs n)))
              ((hs ++ ws) ++ (if b then s ∷ taken capacity (m + 1) os else taken capacity m os))
              (n + (if b then refused capacity (m + 1) os else refused capacity m os + 1))) [
                | true ↦ λ e r1.
                    let more = ws ++ (s ∷ []) in
                    Leaves-equal (run capacity os (at more hs n)) _ _ _ _ _
                      (ap (run capacity os)
                        (send-room capacity s ws hs n (ap (λ (k : ℕ). ltb k capacity) (sym q) ∙ e)))
                      (ap (λ (l : List ThreadSignal). l ++ taken capacity (m + 1) os)
                          (sym (append_assoc hs ws (s ∷ [])))
                        ∙ append_assoc (hs ++ ws) (s ∷ []) (taken capacity (m + 1) os))
                      refl
                      (run-at capacity os more hs n (m + 1)
                        (omega (arith, length-append ws (s ∷ []))) r1)
                | false ↦ λ e r1.
                    Leaves-equal (run capacity os (at ws hs (n + 1))) _ _ _ _ _
                      (ap (run capacity os)
                        (send-full capacity s ws hs n (ap (λ (k : ℕ). ltb k capacity) (sym q) ∙ e)))
                      refl (omega arith) (run-at capacity os ws hs (n + 1) m q r1)
              ]
      refl r
run-at capacity (event junk ∷ os) [] hs n m q r = absurd (omega (arith, r.0))
run-at capacity (event junk ∷ os) (w ∷ ws) hs n m q r =
    Leaves-equal (run capacity os (at ws (hs ++ (w ∷ [])) n)) _ _ _ _ _
      (ap (run capacity os) (event-at capacity junk w ws hs n))
      (ap (λ (l : List ThreadSignal). l ++ taken capacity (m - 1) os) (append_assoc hs (w ∷ []) ws))
      refl (run-at capacity os ws (hs ++ (w ∷ [])) n (m - 1) (omega arith) (r.1))

-- The signals handled and then those that wait in the pipe are, in the order in which they were sent,
-- those that found room in the pipe; the others, and only they, are lost. That is where poll reports the
-- pipe only while something waits in it.
pub run-taken :
    (capacity : ℕ) (os : List Op)
    → IsReported capacity 0 os
    → Leaves (run capacity os new_poller_thread) (taken capacity 0 os) (refused capacity 0 os)
unfolding new_poller_thread
run-taken capacity os r =
    let start = new_poller_thread in
    Leaves-equal (run capacity os start) (run capacity os start) _ _ _ _ refl refl (omega arith)
      (run-at capacity os [] [] 0 0 refl r)
