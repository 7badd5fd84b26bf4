-- ===== src/Callbacks/Progress.antt =====
-- Until `stop` is called, the worker gets to every callback.
use dora_foxglove.Prelude.{ℕ, ◌≡◌, refl, Bool, true, false, List, [], ◌∷◌, ◌++◌}
use dora_foxglove.Callbacks.{
  Worker, testing, locking, deciding, waiting, exited, running, notified, Queue, start, Step,
  accept, push, enter, leave, break, pop, decide, block, wake, finish, set_quit, notify_all, join,
  Steps, here, next,
}
use dora_foxglove.Callbacks.Order.{Asleep, reached-IsOrdered}

-- A worker leaves its loop only when told to.
abbrev LeavesIfTold : Queue → Type 0
LeavesIfTold q = q.worker ≡ exited → q.quit ≡ true

exited_before : (w : Worker) → notified w ≡ exited → w ≡ exited
exited_before testing e = e
exited_before locking e = e
exited_before deciding e = e
exited_before waiting e = cc
exited_before exited e = e
exited_before (running cb) e = e

Step-LeavesIfTold : {b : Bool} {q r : Queue} → Step b q r → LeavesIfTold q → LeavesIfTold r
Step-LeavesIfTold (accept q cb e) h = h
Step-LeavesIfTold (push q before cb behind e free) h = λ w. h (exited_before q.worker w)
Step-LeavesIfTold (enter q e e') h = λ w. cc
Step-LeavesIfTold (leave q e e') h = λ w. e'
Step-LeavesIfTold (break q e e') h = λ w. e'
Step-LeavesIfTold (pop q cb rest e e' e'') h = λ w. cc
Step-LeavesIfTold (decide q e e' e'') h = λ w. cc
Step-LeavesIfTold (block q e) h = λ w. cc
Step-LeavesIfTold (wake q e e') h = λ w. cc
Step-LeavesIfTold (finish q cb e) h = λ w. cc
Step-LeavesIfTold (set_quit q e) h = λ w. refl
Step-LeavesIfTold (notify_all q e) h = λ w. h (exited_before q.worker w)
Step-LeavesIfTold (join q e e') h = h

reached-LeavesIfTold : {b : Bool} {q : Queue} → Steps b start q → LeavesIfTold q
reached-LeavesIfTold here = λ w. cc
reached-LeavesIfTold (next r st) = Step-LeavesIfTold st (reached-LeavesIfTold r)

-- The steps that the worker takes by itself: none of them is one of addCallback or of stop, and none
-- is a wakeup.
abbrev pub is_own : {b : Bool} {q r : Queue} → Step b q r → Bool
is_own (enter q e e') = true
is_own (leave q e e') = true
is_own (break q e e') = true
is_own (pop q cb rest e e' e'') = true
is_own (decide q e e' e'') = true
is_own (block q e) = true
is_own (finish q cb e) = true
is_own _ = false

pub data OwnSteps (b : Bool) (q : Queue) : Queue → Type 0 where
  no_steps : OwnSteps b q q
  and_own : {r s : Queue} → OwnSteps b q r → (st : Step b r s) → is_own st ≡ true → OwnSteps b q s

abbrev pub Starts : Bool → Queue → ℕ → Type 0
Starts b q cb = (r : Queue) × OwnSteps b q r × (r.started ≡ q.started ++ cb ∷ [])

module _ {b : Bool} (q : Queue) (cb : ℕ) (rest : List ℕ) (going : q.quit ≡ false)
    (front : q.callbacks ≡ cb ∷ rest) where
  from_locking : q.worker ≡ locking → Starts b q cb
  from_locking e = (_, and_own no_steps (pop q cb rest e going front) refl, refl)

  from_testing : q.worker ≡ testing → Starts b q cb
  from_testing e = (
    _,
    and_own (and_own no_steps (enter q e going) refl) (pop _ cb rest refl going front) refl,
    refl,
  )

  from_running : (c : ℕ) → q.worker ≡ running c → Starts b q cb
  from_running c e = (
    _,
    and_own (and_own (and_own no_steps (finish q c e) refl) (enter _ refl going) refl)
        (pop _ cb rest refl going front) refl,
    refl,
  )

-- In every state that can be reached before `stop` is called, with a callback in front of the queue,
-- the worker can start that callback by steps of its own, without a notification, a wakeup or a
-- further step of any other thread: no wakeup of addCallback is lost.
pub front_is_started :
    {b : Bool} {q : Queue} (cb : ℕ) (rest : List ℕ)
    → Steps b start q
    → q.quit ≡ false
    → q.callbacks ≡ cb ∷ rest
    → (r : Queue) × OwnSteps b q r × (r.started ≡ q.started ++ cb ∷ [])
front_is_started {b} {q} cb rest reached going front =
    go q.worker refl (reached-IsOrdered reached).asleep
  where
    go : (w : Worker) → q.worker ≡ w → Asleep w q.callbacks → Starts b q cb
    go testing e a = from_testing q cb rest going front e
    go locking e a = from_locking q cb rest going front e
    go deciding e a = cc
    go waiting e a = cc
    go exited e a = cc (reached-LeavesIfTold reached e)
    go (running c) e a = from_running q cb rest going front c e
