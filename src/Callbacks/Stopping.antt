-- ===== src/Callbacks/Stopping.antt =====
-- `stop` changes `_quit` without the mutex.
use dora_foxglove.Prelude.{ℕ, ◌≡◌, ◌≢◌, refl, sym, ◌∙◌, true, false, List, [], ◌∷◌, ◌++◌}
use dora_foxglove.Callbacks.{
  deciding, waiting, notified, idle, notifying, joining, Queue, Step, accept, push, enter, leave,
  break, pop, decide, block, wake, finish, set_quit, notify_all, join, Steps, here, next,
}

-- `stop` joins a worker that waits and that nobody is left to notify.
record IsHung (q : Queue) : Type 0 where
  quits : q.quit ≡ true
  waits : q.worker ≡ waiting
  joins : q.stopper ≡ joining
  nobody : q.accepted ≡ []

not_nil : (before : List ℕ) (cb : ℕ) (behind : List ℕ) → [] ≢ before ++ cb ∷ behind
not_nil [] cb behind e = cc
not_nil (x ∷ before) cb behind e = cc

Step-IsHung : {q r : Queue} → Step false q r → IsHung q → IsHung r
Step-IsHung (accept q cb e) h = cc (h.quits)
Step-IsHung (push q before cb behind e free) h =
    absurd (not_nil before cb behind (sym h.nobody ∙ e))
Step-IsHung (enter q e e') h = cc (h.quits)
Step-IsHung (leave q e e') h = cc (h.waits)
Step-IsHung (break q e e') h = cc (h.waits)
Step-IsHung (pop q cb rest e e' e'') h = cc (h.quits)
Step-IsHung (decide q e e' e'') h = cc (h.quits)
Step-IsHung (block q e) h = cc (h.waits)
Step-IsHung (wake q e e') h = cc
Step-IsHung (finish q cb e) h = cc (h.waits)
Step-IsHung (set_quit q e) h = cc (h.joins)
Step-IsHung (notify_all q e) h = cc (h.joins)
Step-IsHung (join q e e') h = cc (h.waits)

Steps-IsHung : {q r : Queue} → IsHung q → Steps false q r → IsHung r
Steps-IsHung h here = h
Steps-IsHung h (next r st) = Step-IsHung st (Steps-IsHung h r)

-- The worker has found the queue empty and is about to wait when `stop` is called: the notification
-- may come before the worker waits. From then on, if no call of addCallback is under way and `wait`
-- returns on notifications only, the worker waits and `stop` joins it for ever.
pub stop_hangs :
    (q : Queue)
    → q.worker ≡ deciding
    → q.stopper ≡ idle
    → q.accepted ≡ []
    → (r : Queue) × Steps false q r
      × ((s : Queue) → Steps false r s → (s.worker ≡ waiting) × (s.stopper ≡ joining))
stop_hangs q deciding_now not_stopped nobody = (
  hung,
  next (next (next here (set_quit q not_stopped)) (notify_all quitting refl))
      (block informed still),
  λ s r. ((Steps-IsHung IsHung-hung r).waits, (Steps-IsHung IsHung-hung r).joins),
)
  where
    quitting : Queue
    quitting = record q { quit = true; stopper = notifying }

    informed : Queue
    informed = record quitting { stopper = joining; worker = notified quitting.worker }

    still : informed.worker ≡ deciding
    still = rw deciding_now refl

    hung : Queue
    hung = record informed { worker = waiting }

    IsHung-hung : IsHung hung
    IsHung-hung = record { quits = refl; waits = refl; joins = refl; nobody = nobody }
