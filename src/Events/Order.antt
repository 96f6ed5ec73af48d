-- ===== src/Events/Order.antt =====
-- The order of events: what waiters of module/event_queue.c receive is what was generated.
use mathlib.Core.List.{append_assoc, append-nil}
use blksnap.Prelude.{
  ℕ, suc, ◌-◌, ◌<◌, length, length-append, ◌≡◌, refl, sym, ap, ◌∙◌, Bool, true, false, Option, none,
  some, List, [], ◌∷◌, ◌++◌, arith,
}
use blksnap.Events.{
  Event, EventQueue, Wait, ready, timeout, restartsys, failed, event, error, event_gen, event_wait,
}

-- Calls of the two functions, by any threads, in the order of the lock.
pub data Call : Type 0 where
  gen : (alloc : Bool) (time code : ℕ) (body : List ℕ) → Call
  wait : Wait → Call

-- The queue after the calls, with the events that the waiters received.
pub run : EventQueue → List Call → Option (List Event × EventQueue)
run q [] = some ([], q)
run q (gen alloc time code body ∷ calls) = run (event_gen alloc time q code body).1 calls
run q (wait w ∷ calls) = elim (event_wait w q) [
  | none ↦ none
  | some (event e, q') ↦ elim (run q' calls) [ none ↦ none | some (out, q'') ↦ some (e ∷ out, q'') ]
  | some (error _, q') ↦ run q' calls
]

-- The events that were given memory, in order.
abbrev pub generated : List Call → List Event
generated [] = []
generated (gen true time code body ∷ calls) =
    record { time = time; code = code; body = body } ∷ generated calls
generated (gen false _ _ _ ∷ calls) = generated calls
generated (wait _ ∷ calls) = generated calls

-- Every wait that reports an event comes at a moment when the queue, of `n` events at first, holds
-- one: a single reader, for which nothing is taken between the test and the lock.
abbrev pub Served : ℕ → List Call → Type 0
Served n [] = Unit
Served n (gen true _ _ _ ∷ calls) = Served (suc n) calls
Served n (gen false _ _ _ ∷ calls) = Served n calls
Served n (wait ready ∷ calls) = (0 < n) × Served (n - 1) calls
Served n (wait timeout ∷ calls) = Served n calls
Served n (wait restartsys ∷ calls) = Served n calls
Served n (wait (failed _) ∷ calls) = Served n calls

-- Whatever the interleaving of generating and waiting calls, if every wait that reports an event
-- finds the queue not empty, then no call faults, and the events received, followed by those still
-- queued, are those queued at first and those generated, in that order: none is lost, repeated or
-- overtaken.
pub run_in_order :
    (calls : List Call) (n : ℕ) (q : EventQueue)
    → length q ≡ n
    → Served n calls
    → (out : List Event) × (q' : EventQueue) × (run q calls ≡ some (out, q'))
      × (out ++ q' ≡ q ++ generated calls)
unfolding run event_gen event_wait
run_in_order [] n q len h = ([], q, refl, sym (append-nil q))
run_in_order (gen true time code body ∷ calls) n q len h =
    let x : Event = record { time = time; code = code; body = body } in
    let (out, q', ran, order) =
      run_in_order calls (suc n) (q ++ (x ∷ [])) (omega (arith, length-append q (x ∷ []))) h in
    (out, q', ran, order ∙ append_assoc q (x ∷ []) (generated calls))
run_in_order (gen false time code body ∷ calls) n q len h = run_in_order calls n q len h
run_in_order (wait ready ∷ calls) n [] len h = absurd (omega arith)
run_in_order (wait ready ∷ calls) n (x ∷ q) len h =
    let (out, q', ran, order) = run_in_order calls (n - 1) q (omega arith) h.1 in
    (x ∷ out, q', rw (ran, run), ap (λ l. x ∷ l) order)
run_in_order (wait timeout ∷ calls) n q len h = run_in_order calls n q len h
run_in_order (wait restartsys ∷ calls) n q len h = run_in_order calls n q len h
run_in_order (wait (failed _) ∷ calls) n q len h = run_in_order calls n q len h
