-- ===== src/Threads/Listen/Sockets.antt =====
-- The listening sockets of Threads/PollerListenSocket.cpp, with those that Utils/SocketUtils.cpp makes.
use threader.Prelude.{
  ℕ, ◌≡◌, refl, ap, ◌∙◌, sym, Bool, true, false, ◌&&◌, not, Option, none, some, List, [], ◌∷◌, ◌++◌,
  ◌==◌, arith, append-nil, append_assoc,
}
use threader.Utils.Sockets.{
  Answer, done, fails, Creation, made, refused, ServerCalls, create_tcp_server_socket,
}
use threader.Threads.Listen.{Listener, initialize, finalize, finalize_linux, code_of}

-- The errors of the system are not 0.
abbrev pub tells : Answer → Bool
tells done = true
tells (fails e) = not (e == 0)

abbrev pub honest : ServerCalls → Bool
honest c =
    (elim c.create [ made d ↦ true | refused e ↦ not (e == 0) ])
    && tells c.reuse
    && tells c.nonblocking
    && tells c.bind
    && tells c.listen

abbrev pub held : Option ℕ → List ℕ
held none = []
held (some d) = d ∷ []

abbrev pub is_valid : Option ℕ → Bool
is_valid none = false
is_valid (some d) = true

-- The descriptors among those given to `closeSocket`.
abbrev pub valids : List (Option ℕ) → List ℕ
valids [] = []
valids (o ∷ os) = held o ++ valids os

valids-append : (xs ys : List (Option ℕ)) → valids (xs ++ ys) ≡ valids xs ++ valids ys
valids-append [] ys = refl
valids-append (x ∷ xs) ys =
    ap (λ (t : List ℕ). held x ++ t) (valids-append xs ys)
    ∙ sym (append_assoc (held x) (valids xs) (valids ys))

abbrev pub created : Creation → List ℕ
created (made d) = d ∷ []
created (refused e) = []

-- The sockets that were closed, and then the one held.
abbrev pub ledger : Listener → List ℕ
ledger l = valids l.closed ++ held l.descriptor

abbrev pub IsConsistent : Listener → Type 0
IsConsistent l = is_valid l.descriptor ≡ l.is_initialized

opening_created :
    (c : ServerCalls)
    → honest c ≡ true
    → let o = create_tcp_server_socket false c in
      (valids o.closed ++ held o.descriptor ≡ created c.create)
      × ((code_of o == 0) ≡ is_valid o.descriptor)
unfolding create_tcp_server_socket
opening_created c h = ground arith

pub ledger-initialize :
    (c : ServerCalls) (l : Listener)
    → IsConsistent l
    → honest c ≡ true
    → l.is_initialized ≡ false
    → (ledger (initialize c l).1 ≡ ledger l ++ created c.create) × IsConsistent (initialize c l).1
unfolding initialize
ledger-initialize c l i h n =
    let o = create_tcp_server_socket false c in
    let (made_of, valid) = opening_created c h in
    let sum : valids (l.closed ++ o.closed) ++ held o.descriptor
        ≡ valids l.closed ++ created c.create =
      ap (λ (t : List ℕ). t ++ held o.descriptor) (valids-append l.closed o.closed)
      ∙ append_assoc (valids l.closed) (valids o.closed) (held o.descriptor)
      ∙ ap (λ (t : List ℕ). valids l.closed ++ t) made_of in
    ground (arith, sum, valid, append-nil (valids l.closed))

pub ledger-finalize : (l : Listener) → (ledger (finalize l) ≡ ledger l) × IsConsistent (finalize l)
unfolding finalize finalize_linux
ledger-finalize l = grind (
  arith,
  valids-append l.closed (l.descriptor ∷ []),
  append-nil (valids l.closed ++ held l.descriptor),
  append-nil (held l.descriptor),
)
