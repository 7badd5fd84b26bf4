-- ===== src/Callbacks.antt =====
-- class CallbackQueue of foxglove-websocket/include/foxglove/websocket/callback_queue.hpp with the
-- one worker thread that the server asks for, as a step relation: one step for what a thread does
-- between two points at which another may run. A callback is a number.
pub mod Order
pub mod Progress
pub mod Stopping
mod Tests
use dora_foxglove.Prelude.{ℕ, ◌≡◌, ◌≢◌, Bool, true, false, List, [], ◌∷◌, ◌++◌}

-- Where the worker is in doWork: before the test of the loop, behind it and before the mutex is
-- taken, in `wait` with the mutex and with the predicate found false, in `wait` without the mutex, in
-- a callback, and behind the loop.
pub data Worker : Type 0 where
  testing locking deciding waiting exited : Worker
  running : ℕ → Worker

-- Where `stop` is: not called, behind `_quit = true`, in `join`, and returned.
pub data Stopper : Type 0 where
  idle notifying joining returned : Stopper

-- `accepted` has the callbacks of calls of addCallback that are behind the test of `_quit` and not
-- yet in the queue. `pushed` and `started` record what was pushed and what was started, in order.
pub record Queue : Type 0 where
  pub quit : Bool
  pub callbacks : List ℕ
  pub worker : Worker
  pub stopper : Stopper
  pub accepted : List ℕ
  pub pushed : List ℕ
  pub started : List ℕ

abbrev pub start : Queue
start = record {
  quit = false;
  callbacks = [];
  worker = testing;
  stopper = idle;
  accepted = [];
  pushed = [];
  started = [];
}

-- A notification takes a waiting worker out of `wait`, to the mutex, and is lost on any other.
abbrev pub notified : Worker → Worker
notified waiting = locking
notified w = w

-- The mutex is held between two steps only while the worker is `deciding`: what is done under it
-- otherwise is one step. `spurious` says whether `wait` may return without a notification.
pub data Step (spurious : Bool) : Queue → Queue → Type 0 where
  accept :
      (q : Queue) (cb : ℕ)
      → q.quit ≡ false
      → Step spurious q (record q { accepted = cb ∷ q.accepted })
  push :
      (q : Queue) (before : List ℕ) (cb : ℕ) (behind : List ℕ)
      → q.accepted ≡ before ++ cb ∷ behind
      → q.worker ≢ deciding
      → Step spurious q (record q {
        accepted = before ++ behind;
        callbacks = q.callbacks ++ cb ∷ [];
        pushed = q.pushed ++ cb ∷ [];
        worker = notified q.worker;
      })
  enter :
      (q : Queue)
      → q.worker ≡ testing
      → q.quit ≡ false
      → Step spurious q (record q { worker = locking })
  leave :
      (q : Queue)
      → q.worker ≡ testing
      → q.quit ≡ true
      → Step spurious q (record q { worker = exited })
  break :
      (q : Queue)
      → q.worker ≡ locking
      → q.quit ≡ true
      → Step spurious q (record q { worker = exited })
  pop :
      (q : Queue) (cb : ℕ) (rest : List ℕ)
      → q.worker ≡ locking
      → q.quit ≡ false
      → q.callbacks ≡ cb ∷ rest
      → Step spurious q
          (record q { worker = running cb; callbacks = rest; started = q.started ++ cb ∷ [] })
  decide :
      (q : Queue)
      → q.worker ≡ locking
      → q.quit ≡ false
      → q.callbacks ≡ []
      → Step spurious q (record q { worker = deciding })
  block : (q : Queue) → q.worker ≡ deciding → Step spurious q (record q { worker = waiting })
  wake :
      (q : Queue)
      → q.worker ≡ waiting
      → spurious ≡ true
      → Step spurious q (record q { worker = locking })
  finish :
      (q : Queue) (cb : ℕ) → q.worker ≡ running cb → Step spurious q (record q { worker = testing })
  set_quit :
      (q : Queue)
      → q.stopper ≡ idle
      → Step spurious q (record q { quit = true; stopper = notifying })
  notify_all :
      (q : Queue)
      → q.stopper ≡ notifying
      → Step spurious q (record q { stopper = joining; worker = notified q.worker })
  join :
      (q : Queue)
      → q.stopper ≡ joining
      → q.worker ≡ exited
      → Step spurious q (record q { stopper = returned })

pub data Steps (spurious : Bool) (q : Queue) : Queue → Type 0 where
  here : Steps spurious q q
  next : {r s : Queue} → Steps spurious q r → Step spurious r s → Steps spurious q s
