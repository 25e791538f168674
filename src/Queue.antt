-- ===== src/Queue.antt =====
-- The process queue of puredata/pdp_queue.c: a ring of tasks between the main thread, which adds
-- tasks and delivers callbacks, and the worker thread, which runs the process methods. The
-- counters are C ints that only ever grow, kept as their 32-bit patterns.
pub mod Index
pub mod Repr
pub mod Ops
pub mod Threads
pub mod Sync
pub mod Live
mod Tests
use Prim.Native.Nat.{bit_and}
use pdp.Base.{
  ℕ, zero, suc, ◌+◌, ◌-◌, ◌%◌, ◌^◌, Bool, true, false, not, Option, none, some, List, [], ◌∷◌, ◌++◌,
  ◌==◌, if◌then◌else◌, get_or, set, replicate,
}

-- `t_process_queue_item`. Pointers and methods are numbers, NULL is `none`.
pub record Task : Type 0 where
  pub owner : ℕ
  pub process : Option ℕ
  pub callback : Option ℕ
  pub queue_id : Option ℕ

abbrev pub empty_task : Task
empty_task = record { owner = 0; process = none; callback = none; queue_id = none }

-- `t_pdp_procqueue`, without the pthread objects and the clock.
pub record ProcQueue : Type 0 where
  pub slots : List Task
  pub mask : ℕ
  pub head : ℕ
  pub tail : ℕ
  pub curr : ℕ
  pub packets : ℕ
  pub ticks : ℕ
  pub use_thread : Bool

-- What the queue does to its surroundings: it calls a method on an owner, stores an index through
-- a `queue_id` pointer (`none` is -1), and sets or stops its clock.
pub data Event : Type 0 where
  called : (method owner : ℕ) → Event
  stored : (pointer : ℕ) (index : Option ℕ) → Event
  clock_set clock_stopped : Event

abbrev pub call : Option ℕ → ℕ → List Event
call none owner = []
call (some m) owner = called m owner ∷ []

abbrev pub store_id : Option ℕ → Option ℕ → List Event
store_id none i = []
store_id (some p) i = stored p i ∷ []

-- `x & q->mask`
abbrev pub slot : ProcQueue → ℕ → ℕ
slot q x = bit_and x q.mask

-- `(a - b) & q->mask`
abbrev pub diff : ProcQueue → ℕ → ℕ → ℕ
diff q a b = bit_and ((a + 2 ^ 32 - b) % 2 ^ 32) q.mask

abbrev pub incr : ℕ → ℕ
incr x = (x + 1) % 2 ^ 32

-- `memset` leaves `size` empty items; the thread is used only after `use_thread`.
pub init : ℕ → ProcQueue
init logsize = record {
  slots = replicate (2 ^ logsize) empty_task;
  mask = 2 ^ logsize - 1;
  head = 0;
  tail = 0;
  curr = 0;
  packets = 0;
  ticks = 0;
  use_thread = false;
}

pub full : ProcQueue → Bool
full q = 1 == diff q q.tail q.head

-- The tail of `pdp_procqueue_add`: the task goes into the slot under `head`.
pub enqueue : ProcQueue → Task → ProcQueue
enqueue q t = record q {
  slots = set q.slots (slot q q.head) t;
  packets = (q.packets + 1) % 2 ^ 64;
  head = incr q.head;
}

-- `pdp_procqueue_add` with its three exits: no thread, no room, queued.
pub add : ProcQueue → Task → ProcQueue × List Event
unfolding full enqueue
add q t =
    if not q.use_thread
    then (q, store_id t.queue_id none ++ call t.process t.owner ++ call t.callback t.owner)
    else if full q
    then (q, store_id t.queue_id none ++ call t.callback t.owner)
    else (enqueue q t, store_id t.queue_id (some (slot q q.head)))

-- The worker has something to do.
pub pending : ProcQueue → Bool
pending q = not (diff q q.curr q.head == 0)

-- The worker's round: the call of the process method, then the advance.
pub process_calls : ProcQueue → List Event
process_calls q = let t = get_or q.slots (slot q q.curr) empty_task in call t.process t.owner

pub advance : ProcQueue → ProcQueue
advance q = record q { curr = incr q.curr }

-- `pdp_procqueue_callback` has a finished task to deliver.
pub finished : ProcQueue → Bool
finished q = not (diff q q.curr q.tail == 0)

-- The round of `pdp_procqueue_callback`: invalidate the id, call back, then move the tail.
pub callback_calls : ProcQueue → List Event
callback_calls q =
    let t = get_or q.slots (slot q q.tail) empty_task in
    store_id t.queue_id none ++ call t.callback t.owner

pub retire : ProcQueue → ProcQueue
retire q = record q { tail = incr q.tail }

-- The whole of `pdp_procqueue_callback` where neither the worker nor a callback touches the queue
-- meanwhile. The fuel counts rounds.
pub callback_loop : ℕ → ProcQueue → ProcQueue × List Event
unfolding finished callback_calls retire
callback_loop zero q = (q, [])
callback_loop (suc fuel) q =
    let rest = callback_loop fuel (retire q) in
    if finished q then (rest.0, callback_calls q ++ rest.1) else (q, [])

-- As many rounds as there are slots, under the same condition. With both threads at work the rounds are
-- the steps `callback_called` and `retired` of Queue.Threads.
pub run_callbacks : ProcQueue → ProcQueue × List Event
unfolding callback_loop
run_callbacks q = callback_loop (q.mask + 1) q

-- `pdp_procqueue_tick`
pub tick : ProcQueue → ProcQueue × List Event
unfolding run_callbacks
tick q =
    let (r, events) = run_callbacks q in
    if not q.use_thread
    then (q, [])
    else (record r { ticks = (r.ticks + 1) % 2 ^ 64 }, events ++ clock_set ∷ [])

-- `pdp_procqueue_wait` returns when this holds.
pub all_processed : ProcQueue → Bool
all_processed q = diff q q.curr q.head == 0

abbrev pub cancel : Task → Task
cancel t = record t { callback = none; queue_id = none }

-- `pdp_procqueue_finish` after its wait; `none` is the index -1.
pub finish : ProcQueue → Option ℕ → ProcQueue
finish q none = q
finish q (some i) = record q {
  slots = set q.slots (slot q i) (cancel (get_or q.slots (slot q i) empty_task));
}

-- `pdp_procqueue_use_thread`; switching off happens after the wait.
pub switch_thread : ProcQueue → Bool → ProcQueue × List Event
unfolding run_callbacks
switch_thread q true = (record q { use_thread = true }, clock_stopped ∷ clock_set ∷ [])
switch_thread q false =
    let (r, events) = run_callbacks (record q { use_thread = false }) in
    (r, events ++ clock_stopped ∷ [])
