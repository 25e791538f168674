-- ===== src/Queue/Tests.antt =====
-- The queue at small rings: runs, and the theorems at concrete inputs.
use pdp.Base.{◌≡◌, refl, arith, true, false, none, some, [], ◌∷◌}
use pdp.Queue.{
  Task, ProcQueue, called, stored, init, full, enqueue, add, pending, finished, process_calls,
  callback_calls, advance, run_callbacks, cancel, finish, retire, switch_thread,
}
use pdp.Queue.Repr.{Repr}
use pdp.Queue.Ops.{init-Repr, enqueue-Repr, process-Repr}
use pdp.Queue.Threads.{
  System, Reach, start, queued, process_called, advanced, callback_called, InOrder, Reach-InOrder,
}
use pdp.Queue.Live.{Alone, still, then_process, then_retire, Drains, Reach-Drains}
use pdp.Queue.Sync.{run_callbacks_lem, index_of, finish-Repr}

abbrev blur : Task
blur = record { owner = 7; process = some 100; callback = some 200; queue_id = some 30 }

abbrev mix : Task
mix = record { owner = 8; process = some 101; callback = none; queue_id = none }

-- Four slots, two tasks queued.
two_queued : ProcQueue
unfolding enqueue init
two_queued = enqueue (enqueue (init 2) blur) mix

two_queued-Repr : Repr 2 two_queued [] (blur ∷ mix ∷ [])
unfolding two_queued
two_queued-Repr =
    enqueue-Repr (enqueue-Repr (init-Repr 2 (omega arith) (omega arith)) blur (omega arith)) mix
      (omega arith)

one_processed-Repr : Repr 2 (advance two_queued) (blur ∷ []) (mix ∷ [])
one_processed-Repr = (process-Repr two_queued-Repr).1

both_processed-Repr : Repr 2 (advance (advance two_queued)) (blur ∷ mix ∷ []) []
both_processed-Repr = (process-Repr one_processed-Repr).1

three_fill_four_slots : full (enqueue two_queued blur) ≡ true
unfolding full two_queued
three_fill_four_slots = refl

run_callbacks_lem_example :
    ((run_callbacks (advance two_queued)).1 ≡ stored 30 none ∷ called 200 7 ∷ [])
    × Repr 2 (run_callbacks (advance two_queued)).0 [] (mix ∷ [])
run_callbacks_lem_example = run_callbacks_lem one_processed-Repr

finish-Repr_example :
    Repr 2
      (finish (advance (advance two_queued)) (some (index_of (advance (advance two_queued)) 0)))
      (cancel blur ∷ mix ∷ [])
      []
finish-Repr_example = finish-Repr 0 blur both_processed-Repr refl

abbrev first_delivery : System
first_delivery = record {
  queue = advance (add (add (switch_thread (init 2) true).0 blur).0 mix).0;
  running = false;
  delivering = true;
}

-- One task queued, processed and called back, a second one queued.
run :
    Reach 2 first_delivery
      (blur ∷ mix ∷ [])
      (called 100 7 ∷ [])
      (stored 30 none ∷ called 200 7 ∷ [])
unfolding add pending finished process_calls callback_calls advance full enqueue init switch_thread
run =
    callback_called
      (advanced
        (process_called (queued (queued (start (omega arith) (omega arith)) blur refl) mix refl)
          refl refl)
        refl)
      refl refl

Reach-InOrder_example :
    InOrder (blur ∷ mix ∷ []) (called 100 7 ∷ []) (stored 30 none ∷ called 200 7 ∷ [])
Reach-InOrder_example = Reach-InOrder run

abbrev second_process : System
second_process = record { queue = retire first_delivery.queue; running = true; delivering = false }

-- The first task let go, the second one taken up.
go_on : Alone first_delivery 2 second_process (called 101 8 ∷ []) []
unfolding pending process_calls retire advance add full enqueue init switch_thread
go_on = then_process (then_retire still refl) refl refl

Reach-Drains_example :
    Drains 2 second_process
      (blur ∷ mix ∷ [])
      (called 100 7 ∷ called 101 8 ∷ [])
      (stored 30 none ∷ called 200 7 ∷ [])
Reach-Drains_example = Reach-Drains run go_on
