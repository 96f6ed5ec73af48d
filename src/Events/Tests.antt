-- ===== src/Events/Tests.antt =====
-- Runs of module/event_queue.c, and its theorems at them.
use blksnap.Prelude.{◌≡◌, refl, true, false, some, List, [], ◌∷◌, ◌++◌, arith}
use blksnap.Events.{Event, EventQueue, ready, timeout}
use blksnap.Events.Order.{Call, gen, wait, run, run_in_order}

abbrev first : Event
first = record { time = 4; code = 0; body = 8 ∷ [] }

abbrev calls : List Call
calls =
    gen true 5 1 []
    ∷ wait ready
    ∷ gen false 6 0 []
    ∷ wait timeout
    ∷ gen true 7 0 (3 ∷ [])
    ∷ wait ready
    ∷ []

run_in_order_example :
    (out : List Event) × (q : EventQueue) × (run (first ∷ []) calls ≡ some (out, q))
    × (out ++ q
        ≡ first
          ∷ record { time = 5; code = 1; body = [] }
          ∷ record { time = 7; code = 0; body = 3 ∷ [] }
          ∷ [])
run_in_order_example = run_in_order calls 1 (first ∷ []) refl (omega arith)
