-- ===== src/Callbacks/Tests.antt =====
-- Runs of the queue.
use dora_foxglove.Prelude.{◌≡◌, ◌≢◌, refl, false, [], ◌∷◌}
use dora_foxglove.Callbacks.{
  testing, deciding, waiting, running, joining, Queue, start, accept, push, enter, pop, Steps, here,
  next,
}
use dora_foxglove.Callbacks.Order.{IsOrdered, reached-IsOrdered}
use dora_foxglove.Callbacks.Progress.{OwnSteps, front_is_started}
use dora_foxglove.Callbacks.Stopping.{stop_hangs}

-- A callback is pushed and started, and another is in the queue.
abbrev busy : Queue
busy = record start {
  callbacks = 8 ∷ [];
  worker = running 7;
  pushed = 7 ∷ 8 ∷ [];
  started = 7 ∷ [];
}

not_deciding : testing ≢ deciding
not_deciding e = cc

to_busy : Steps false start busy
to_busy =
    next
      (next
        (next
          (next (next (next here (accept start 8 refl)) (accept _ 7 refl))
            (push _ [] 7 (8 ∷ []) refl not_deciding))
          (push _ [] 8 [] refl not_deciding))
        (enter _ refl refl))
      (pop _ 7 (8 ∷ []) refl refl refl)

reached-IsOrdered_example : IsOrdered busy
reached-IsOrdered_example = reached-IsOrdered to_busy

-- A worker that has found nothing to do.
abbrev deciding_queue : Queue
deciding_queue = record start { worker = deciding }

stop_hangs_example :
    (r : Queue) × Steps false deciding_queue r
    × ((s : Queue) → Steps false r s → (s.worker ≡ waiting) × (s.stopper ≡ joining))
stop_hangs_example = stop_hangs deciding_queue refl refl refl

front_is_started_example : (r : Queue) × OwnSteps false busy r × (r.started ≡ 7 ∷ 8 ∷ [])
front_is_started_example = front_is_started 8 [] to_busy refl refl
