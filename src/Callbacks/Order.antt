-- ===== src/Callbacks/Order.antt =====
-- The callbacks run in the order in which they were pushed, each once, and none is overlooked.
use dora_foxglove.Prelude.{ℕ, ◌≡◌, ◌≢◌, refl, sym, ap, ◌∙◌, Bool, List, [], ◌∷◌, ◌++◌, append_assoc}
use dora_foxglove.Callbacks.{
  Worker, testing, locking, deciding, waiting, exited, running, notified, Queue, start, Step,
  accept, push, enter, leave, break, pop, decide, block, wake, finish, set_quit, notify_all, join,
  Steps, here, next,
}

-- The queue of a worker that has found nothing to do.
abbrev pub Asleep : Worker → List ℕ → Type 0
Asleep deciding callbacks = callbacks ≡ []
Asleep waiting callbacks = callbacks ≡ []
Asleep w callbacks = Unit {0}

-- What was pushed is what was started and then what is in the queue; a worker in `wait` has an empty
-- queue.
pub record IsOrdered (q : Queue) : Type 0 where
  pub in_order : q.pushed ≡ q.started ++ q.callbacks
  pub asleep : Asleep q.worker q.callbacks

-- Behind a push, which wakes a waiting worker.
awake : (w : Worker) (callbacks : List ℕ) → w ≢ deciding → Asleep (notified w) callbacks
awake testing callbacks free = tt
awake locking callbacks free = tt
awake deciding callbacks free = absurd (free refl)
awake waiting callbacks free = tt
awake exited callbacks free = tt
awake (running cb) callbacks free = tt

notified-Asleep :
    (w : Worker) (callbacks : List ℕ) → Asleep w callbacks → Asleep (notified w) callbacks
notified-Asleep testing callbacks a = tt
notified-Asleep locking callbacks a = tt
notified-Asleep deciding callbacks a = a
notified-Asleep waiting callbacks a = tt
notified-Asleep exited callbacks a = tt
notified-Asleep (running cb) callbacks a = tt

Step-IsOrdered : {b : Bool} {q r : Queue} → Step b q r → IsOrdered q → IsOrdered r
Step-IsOrdered (accept q cb e) i = record { in_order = i.in_order; asleep = i.asleep }
Step-IsOrdered (push q before cb behind e free) i = record {
  in_order = ap (λ l. l ++ cb ∷ []) i.in_order ∙ append_assoc q.started q.callbacks (cb ∷ []);
  asleep = awake q.worker (q.callbacks ++ cb ∷ []) free;
}
Step-IsOrdered (enter q e e') i = record { in_order = i.in_order; asleep = tt }
Step-IsOrdered (leave q e e') i = record { in_order = i.in_order; asleep = tt }
Step-IsOrdered (break q e e') i = record { in_order = i.in_order; asleep = tt }
Step-IsOrdered (pop q cb rest e e' e'') i = record {
  in_order =
      i.in_order ∙ (ap (λ l. q.started ++ l) e'' ∙ sym (append_assoc q.started (cb ∷ []) rest));
  asleep = tt;
}
Step-IsOrdered (decide q e e' e'') i = record { in_order = i.in_order; asleep = e'' }
Step-IsOrdered (block q e) i = record { in_order = i.in_order; asleep = rw e at (i.asleep) }
Step-IsOrdered (wake q e e') i = record { in_order = i.in_order; asleep = tt }
Step-IsOrdered (finish q cb e) i = record { in_order = i.in_order; asleep = tt }
Step-IsOrdered (set_quit q e) i = record { in_order = i.in_order; asleep = i.asleep }
Step-IsOrdered (notify_all q e) i = record {
  in_order = i.in_order;
  asleep = notified-Asleep q.worker q.callbacks i.asleep;
}
Step-IsOrdered (join q e e') i = record { in_order = i.in_order; asleep = i.asleep }

Steps-IsOrdered : {b : Bool} {q r : Queue} → IsOrdered q → Steps b q r → IsOrdered r
Steps-IsOrdered i here = i
Steps-IsOrdered i (next r st) = Step-IsOrdered st (Steps-IsOrdered i r)

-- At every moment, however the threads are interleaved: the callbacks that were pushed are the ones
-- that were started, in the same order, and then the ones in the queue; and a worker that waits
-- does so on an empty queue, so that no push is overlooked.
pub reached-IsOrdered : {b : Bool} {q : Queue} → Steps b start q → IsOrdered q
reached-IsOrdered r = Steps-IsOrdered (record { in_order = refl; asleep = tt }) r
