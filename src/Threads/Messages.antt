-- ===== src/Threads/Messages.antt =====
-- Threads/QueueMessages.h and Threads/QueueMessages.cpp: the queue of messages of a thread. Its mutex
-- is not recursive: locking it again from the call that holds it never returns, which is `none`.
-- A message is a number.
pub mod Fifo
mod Tests
use threader.Prelude.{
  ℕ, zero, suc, ◌+◌, ◌-◌, Bool, true, false, ◌||◌, Option, none, some, List, [], ◌∷◌, ◌++◌, ltb,
  leb, ◌==◌, if◌then◌else◌, length, take, drop,
}
use threader.Prelude.Int.{ℤ, pos, negsuc, pos_part, ltb_ℤ}

pub record QueueMessages : Type 0 where
  pub queue : List ℕ
  pub locked : Bool

unfoldable pub new : QueueMessages
new = record { queue = []; locked = false }

-- A call on the queue.
abbrev pub M : Type 0 → Type 0
M A = QueueMessages → Option (A × QueueMessages)

infixl 5 ◌>>=◌ ◌>>◌
abbrev pub ◌>>=◌ : {A B : Type 0} → M A → (A → M B) → M B
◌>>=◌ m f q = elim (m q) [ none ↦ none | some (a, q') ↦ f a q' ]

abbrev pub ◌>>◌ : {B : Type 0} → M (Unit {0}) → M B → M B
m >> k = m >>= λ _. k

abbrev pub return : {A : Type 0} → A → M A
return a q = some (a, q)

-- `QMutexLocker locker(_mutex)`
unfoldable pub lock : M (Unit {0})
lock q = if q.locked then none else some (tt, record q { locked = true })

-- The end of the locker's scope.
unfoldable pub unlock : M (Unit {0})
unlock q = some (tt, record q { locked = false })

abbrev pub get : M (List ℕ)
get q = some (q.queue, q)

abbrev pub put : List ℕ → M (Unit {0})
put ms q = some (tt, record q { queue = ms })

unfoldable pub count : M ℕ
unfolding lock unlock
count = do lock; ms ← get; unlock; return (length ms)

unfoldable pub enqueue : ℕ → M ℕ
unfolding lock unlock
enqueue message = do
  lock
  ms ← get
  put (ms ++ (message ∷ []))
  unlock
  return (length (ms ++ (message ∷ [])))

unfoldable pub enqueue_list : List ℕ → M ℕ
unfolding lock unlock
enqueue_list list = do lock; ms ← get; put (ms ++ list); unlock; return (length (ms ++ list))

-- `QQueue::dequeue`, or a null message
unfoldable pub pop : List ℕ → Option ℕ × List ℕ
pop [] = (none, [])
pop (m ∷ ms) = (some m, ms)

unfoldable pub dequeue : M (Option ℕ)
unfolding lock unlock pop
dequeue = do lock; ms ← get; put (pop ms).1; unlock; return (pop ms).0

unfoldable pub dequeue_all : M (List ℕ)
unfolding lock unlock
dequeue_all = do lock; ms ← get; put []; unlock; return ms

-- What `dequeue(int)` does below its test.
unfoldable pub dequeue_front : ℤ → M (List ℕ)
unfolding unlock
dequeue_front count = do
  ms ← get
  put (drop (pos_part count) ms)
  unlock
  return (take (pos_part count) ms)

-- `0 <= count || _queue.length() > count`
unfoldable pub wants_all : ℤ → List ℕ → Bool
wants_all count ms = (if ltb_ℤ count (pos 0) then false else true) || ltb_ℤ count (pos (length ms))

-- `dequeue(int)`. It calls `dequeueAll` with the mutex held.
unfoldable pub dequeue_count : ℤ → M (List ℕ)
unfolding lock dequeue_all dequeue_front wants_all
dequeue_count count = do
  lock
  ms ← get
  if wants_all count ms then dequeue_all else dequeue_front count
