-- ===== src/Events.antt =====
-- module/event_queue.c: the queue of events for user space. The spinlock makes each function one
-- step. Memory, the clock and what `wait_event_interruptible_timeout` returns are arguments.
pub mod Order
mod Tests
use blksnap.Prelude.{ℕ, Bool, true, false, Option, none, some, List, [], ◌∷◌, ◌++◌, if◌then◌else◌}
use blksnap.Kernel.{Errno, enoent, eintr, enomem, Ret, ok, err}

-- `struct event`; `body` holds the fields of `data`.
pub record Event : Type 0 where
  pub time : ℕ
  pub code : ℕ
  pub body : List ℕ

abbrev pub EventQueue : Type 0
EventQueue = List Event

pub event_queue_init : EventQueue
event_queue_init = []

-- The loop frees the first event until none is left; the result has the events freed.
pub event_queue_done : EventQueue → List Event
event_queue_done [] = []
event_queue_done (e ∷ es) = e ∷ event_queue_done es

unfoldable pub event_gen :
    (alloc : Bool) (time : ℕ) → EventQueue → (code : ℕ) (body : List ℕ) → Ret × EventQueue
event_gen alloc time q code body =
    if alloc
    then (ok, q ++ (record { time = time; code = code; body = body } ∷ []))
    else (err enomem, q)

-- What the wait of the kernel returns: a positive number, where the queue was seen not to be empty, 0,
-- -ERESTARTSYS, or another error.
pub data Wait : Type 0 where
  ready timeout restartsys : Wait
  failed : Errno → Wait

pub data Waited : Type 0 where
  event : Event → Waited
  error : Errno → Waited

-- The wait is over when the lock is taken, so that the queue may have become empty since it was seen;
-- `none`: the first entry of an empty list is read.
pub event_wait : Wait → EventQueue → Option (Waited × EventQueue)
event_wait ready [] = none
event_wait ready (e ∷ q) = some (event e, q)
event_wait timeout q = some (error enoent, q)
event_wait restartsys q = some (error eintr, q)
event_wait (failed e) q = some (error e, q)
