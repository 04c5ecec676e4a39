-- ===== src/Threads/Handler/Keeping.antt =====
-- What every part of `process` keeps, `process` of Threads/HandlerTcpSocket.cpp keeps.
use threader.Prelude.{ℕ, ◌≡◌, Bool, true, false, if◌then◌else◌, refl, if_either, ◌||◌, not}
use threader.Threads.Handler.{
  connecting, connected, ready_read, ready_write, error, Handler, PollFd, SocketError, Revents,
  same, emit, change_state, set_state, close, process_input, process_out, process, is_ready,
  is_valid, same_fd, disconnected,
}

-- What holds of both branches, each where its test holds.
if_by {ℓ κ} :
    {A : Type ℓ} (Q : A → Type κ) (b : Bool) (x y : A)
    → (b ≡ true → Q x)
    → (b ≡ false → Q y)
    → Q (if b then x else y)
if_by Q true x y h k = h refl
if_by Q false x y h k = k refl

module _ {ℓ} (P : Handler → Type ℓ)
    (emit_error : (e : ℕ) (h : Handler) → P h → P (emit (error e) h))
    (emit_read : (h : Handler) → P h → P (emit ready_read h))
    (emit_write : (h : Handler) → P h → P (emit ready_write h))
    (close_kept : (h : Handler) → P h → P (close h))
    (connect_kept : (h : Handler)
      → same h.state connecting ≡ true
      → P h
      → P (change_state connected h)) where
  abbrev HoldsAfter : Bool × Handler → Type ℓ
  HoldsAfter r = P (r.1)

  input_keeps : (r : Revents) (h : Handler) → P h → P (process_input r h)
  unfolding process_input
  input_keeps r h t = if_either P r.input (emit ready_read h) h (emit_read h t) t

  lost_keeps : (e : ℕ) (h : Handler) → P h → P (close (emit (error e) h))
  lost_keeps e h t = close_kept (emit (error e) h) (emit_error e h t)

  connecting_keeps :
      (e : ℕ) (ready : Bool) (r : Revents) (h : Handler)
      → same h.state connecting ≡ true
      → P h
      → HoldsAfter (
          if ready
          then (true, process_input r (emit ready_write (change_state connected h)))
          else (false, close (emit (error e) h)))
  connecting_keeps e true r h c t =
      input_keeps r _ (emit_write (change_state connected h) (connect_kept h c t))
  connecting_keeps e false r h c t = lost_keeps e h t

  out_keeps :
      (e : ℕ) (answer : SocketError) (r : Revents) (h : Handler)
      → P h
      → HoldsAfter (process_out e answer r h)
  unfolding process_out set_state
  out_keeps e answer r h t =
      let quiet = input_keeps r (emit ready_write h) (emit_write h t) in
      if_either HoldsAfter r.out _ _
        (if_by HoldsAfter (same h.state connecting) _ _
          (λ c. connecting_keeps e (is_ready answer) r h c t) (λ c. quiet))
        (input_keeps r h t)

  pub process-keeps :
      (e : ℕ) (answer : SocketError) (p : PollFd) (h : Handler) → P h → P (process e answer p h).1
  unfolding process
  process-keeps e answer p h t =
      let h1 = if p.revents.error then close (emit (error e) h) else h in
      let t1 : P h1 = if_either P p.revents.error _ h (lost_keeps e h t) t in
      if_either HoldsAfter (same h.state disconnected || not (is_valid h.descriptor)) (false, h) _ t
        (if_either HoldsAfter (not (same_fd p.fd h.descriptor)) (false, h) _ t
          (if_either HoldsAfter p.revents.hang_up _ _
            (close_kept (emit ready_read h1) (emit_read h1 t1))
            (out_keeps e answer p.revents h1 t1)))
