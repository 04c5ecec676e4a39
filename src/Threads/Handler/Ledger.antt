-- ===== src/Threads/Handler/Ledger.antt =====
-- Each socket that the system made for a handler is held or has been closed once
-- (Threads/HandlerTcpSocket.cpp with Utils/SocketUtils.cpp).
use threader.Prelude.{ℕ, ◌≡◌, refl, List, ◌++◌}
use threader.Threads.Handler.{Handler, emit, Signal}
use threader.Threads.Handler.Connection.{held}
use threader.Threads.Handler.Reach.{Reach}

-- The sockets that were closed, and then the one held.
abbrev pub ledger : Handler → List ℕ
ledger h = h.closed ++ held h.descriptor

ledger-emit : (s : Signal) (h : Handler) → ledger (emit s h) ≡ ledger h
unfolding emit
ledger-emit s h = refl
