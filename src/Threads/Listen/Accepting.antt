-- ===== src/Threads/Listen/Accepting.antt =====
-- Connections that are accepted (Threads/PollerListenSocket.cpp).
use threader.Prelude.{
  ℕ, ◌+◌, ◌≡◌, Bool, not, List, [], ◌∷◌, ◌++◌, ◌==◌, if◌then◌else◌, length, arith, append-nil,
  append_assoc,
}
use threader.Threads.Listen.{Listener, process_connection_requests, ewouldblock}

-- The members with a property.
abbrev pub filter : (ℕ → Bool) → List ℕ → List ℕ
filter f [] = []
filter f (x ∷ xs) = if f x then x ∷ filter f xs else filter f xs

filter-snoc :
    (f : ℕ → Bool) (old : List ℕ) (s : ℕ) (ss : List ℕ)
    → (if f s then old ++ (s ∷ []) else old) ++ filter f ss ≡ old ++ filter f (s ∷ ss)
filter-snoc f old s ss = ground (arith, append_assoc old (s ∷ []) (filter f ss))

abbrev pub failures : ℕ → List ℕ
failures e = if e == ewouldblock then [] else e ∷ []

-- All connections that wait are taken from the system: those that the owner wants are its own, and the
-- others are closed, each once and in order; the last answer is an error unless it says that none
-- waits; the result is the number of these. The listening socket stays as it was.
pub process_connection_requests-filter :
    (accepts : ℕ → Bool) (ss : List ℕ) (e : ℕ) (l : Listener)
    → let r = process_connection_requests accepts ss e l in
      (r.0 ≡ length ss + length (failures e))
      × (r.1.accepted ≡ l.accepted ++ filter accepts ss)
      × (r.1.rejected ≡ l.rejected ++ filter (λ s. not (accepts s)) ss)
      × (r.1.errors ≡ l.errors ++ failures e)
      × (r.1.descriptor ≡ l.descriptor)
      × (r.1.closed ≡ l.closed)
      × (r.1.is_initialized ≡ l.is_initialized)
unfolding process_connection_requests
process_connection_requests-filter accepts [] e l =
    ground (arith, append-nil l.accepted, append-nil l.rejected, append-nil l.errors)
process_connection_requests-filter accepts (s ∷ ss) e l =
    let l1 : Listener =
      if accepts s
      then record l { accepted = l.accepted ++ (s ∷ []) }
      else record l { rejected = l.rejected ++ (s ∷ []) } in
    ground (
      arith,
      process_connection_requests-filter accepts ss e l1,
      filter-snoc accepts l.accepted s ss,
      filter-snoc (λ x. not (accepts x)) l.rejected s ss,
    )
