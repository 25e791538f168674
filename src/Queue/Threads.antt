-- ===== src/Queue/Threads.antt =====
-- The main thread and the worker thread, interleaved. The worker calls a process method and later
-- moves `curr`; the main thread calls a callback and later moves `tail`, and a callback may add
-- tasks in between. A step is what one thread does between two accesses to the shared counters.
use mathlib.Core.List.{append_assoc, append-nil}
use mathlib.Core.Path.{subst, ap₂}
use pdp.Base.{
  ℕ, ◌≤◌, ◌<◌, ◌≡◌, refl, ap, ◌∙◌, sym, arith, Bool, true, false, List, [], ◌∷◌, ◌++◌, none, length,
  length-append,
}
use pdp.Queue.{
  Task, ProcQueue, Event, call, store_id, init, full, enqueue, add, pending, finished,
  process_calls, callback_calls, advance, retire, switch_thread,
}
use pdp.Queue.Repr.{Repr}
use pdp.Queue.Ops.{
  init-Repr, full_iff, enqueue-Repr, pending_iff, finished_iff, process-Repr, retire-Repr, add-full,
  add_room,
}

pub record System : Type 0 where
  pub queue : ProcQueue
  pub running : Bool
  pub delivering : Bool

-- A reachable system, with the tasks queued so far, the worker's calls and the callbacks' calls.
pub data Reach (k : ℕ) : System → List Task → List Event → List Event → Type 0 where
  start :
      1 ≤ k
      → k ≤ 31
      → Reach k
          (record { queue = (switch_thread (init k) true).0; running = false; delivering = false })
          []
          []
          []
  queued :
      {s : System} {accepted : List Task} {work main : List Event}
      → Reach k s accepted work main
      → (t : Task) → full s.queue ≡ false
      → Reach k (record s { queue = (add s.queue t).0 }) (accepted ++ t ∷ []) work main
  dropped :
      {s : System} {accepted : List Task} {work main : List Event}
      → Reach k s accepted work main
      → (t : Task) → full s.queue ≡ true
      → Reach k (record s { queue = (add s.queue t).0 }) accepted work main
  process_called :
      {s : System} {accepted : List Task} {work main : List Event}
      → Reach k s accepted work main
      → s.running ≡ false
      → pending s.queue ≡ true
      → Reach k (record s { running = true }) accepted (work ++ process_calls s.queue) main
  advanced :
      {s : System} {accepted : List Task} {work main : List Event}
      → Reach k s accepted work main
      → s.running ≡ true
      → Reach k (record s { queue = advance s.queue; running = false }) accepted work main
  callback_called :
      {s : System} {accepted : List Task} {work main : List Event}
      → Reach k s accepted work main
      → s.delivering ≡ false
      → finished s.queue ≡ true
      → Reach k (record s { delivering = true }) accepted work (main ++ callback_calls s.queue)
  retired :
      {s : System} {accepted : List Task} {work main : List Event}
      → Reach k s accepted work main
      → s.delivering ≡ true
      → Reach k (record s { queue = retire s.queue; delivering = false }) accepted work main

abbrev pub process_events : List Task → List Event
process_events [] = []
process_events (t ∷ ts) = call t.process t.owner ++ process_events ts

abbrev pub callback_events : List Task → List Event
callback_events [] = []
callback_events (t ∷ ts) =
    (store_id t.queue_id none ++ call t.callback t.owner) ++ callback_events ts

process_events-append :
    (ts us : List Task) → process_events (ts ++ us) ≡ process_events ts ++ process_events us
process_events-append [] us = refl
process_events-append (t ∷ ts) us =
    ap (λ e. call t.process t.owner ++ e) (process_events-append ts us)
    ∙ sym (append_assoc (call t.process t.owner) (process_events ts) (process_events us))

callback_events-append :
    (ts us : List Task) → callback_events (ts ++ us) ≡ callback_events ts ++ callback_events us
callback_events-append [] us = refl
callback_events-append (t ∷ ts) us =
    let own = store_id t.queue_id none ++ call t.callback t.owner in
    ap (λ e. own ++ e) (callback_events-append ts us)
    ∙ sym (append_assoc own (callback_events ts) (callback_events us))

-- The task that a thread has taken and not yet let go.
abbrev pub taken : Bool → List Task → List Task
taken false ts = []
taken true [] = []
taken true (t ∷ ts) = t ∷ []

-- What a reachable system has done, and what its queue holds.
pub record History (k : ℕ) (s : System) (accepted : List Task) (work main : List Event)
    : Type 0 where
  pub delivered : List Task
  pub retiring : List Task
  pub waiting : List Task
  pub threaded : s.queue.use_thread ≡ true
  pub repr : Repr k s.queue retiring waiting
  pub all : accepted ≡ delivered ++ retiring ++ waiting
  pub worked : work ≡ process_events (delivered ++ retiring ++ taken s.running waiting)
  pub called_back : main ≡ callback_events (delivered ++ taken s.delivering retiring)
  pub busy : s.running ≡ true → 0 < length waiting
  pub due : s.delivering ≡ true → 0 < length retiring

taken-append :
    (b : Bool) (ts us : List Task) → (b ≡ true → 0 < length ts) → taken b (ts ++ us) ≡ taken b ts
taken-append false ts us h = refl
taken-append true [] us h = absurd (omega (arith, h refl))
taken-append true (t ∷ ts) us h = refl

taken-split : (b : Bool) (ts : List Task) → (rest : List Task) × (ts ≡ taken b ts ++ rest)
taken-split false ts = (ts, refl)
taken-split true [] = ([], refl)
taken-split true (t ∷ ts) = (ts, refl)

split : (ts : List Task) → 0 < length ts → (t : Task) × (us : List Task) × (ts ≡ t ∷ us)
split [] h = absurd (omega arith)
split (t ∷ ts) h = (t, ts, refl)

module _ {k : ℕ} {s : System} {accepted : List Task} {work main : List Event} where
  History-queued :
      (t : Task)
      → full s.queue ≡ false
      → History k s accepted work main
      → History k (record s { queue = (add s.queue t).0 }) (accepted ++ t ∷ []) work main
  unfolding enqueue
  History-queued t room h = rw (add_room s.queue t h.threaded room) (record {
    delivered = h.delivered;
    retiring = h.retiring;
    waiting = h.waiting ++ t ∷ [];
    threaded = h.threaded;
    repr = enqueue-Repr h.repr t (ground (arith, h.repr.room, (full_iff h.repr).1));
    all = simp (h.all, append_assoc);
    worked = rw (taken-append s.running h.waiting (t ∷ []) h.busy) h.worked;
    called_back = h.called_back;
    busy = λ e. omega (arith, length-append {0} h.waiting (t ∷ []));
    due = h.due;
  })

  History-process_called :
      s.running ≡ false
      → pending s.queue ≡ true
      → History k s accepted work main
      → History k (record s { running = true }) accepted (work ++ process_calls s.queue) main
  History-process_called idle some_work h =
      let (t, ts, e) = split h.waiting ((pending_iff h.repr).0 some_work) in
      let run = process-Repr (subst (Repr k s.queue h.retiring) e h.repr) in
      record {
        delivered = h.delivered;
        retiring = h.retiring;
        waiting = h.waiting;
        threaded = h.threaded;
        repr = h.repr;
        all = h.all;
        worked = simp (h.worked, e, idle, run.0, process_events-append, append_assoc, append-nil);
        called_back = h.called_back;
        busy = λ e. (pending_iff h.repr).0 some_work;
        due = h.due;
      }

  History-advanced :
      s.running ≡ true
      → History k s accepted work main
      → History k (record s { queue = advance s.queue; running = false }) accepted work main
  unfolding advance
  History-advanced busy h =
      let (t, ts, e) = split h.waiting (h.busy busy) in
      let run = process-Repr (subst (Repr k s.queue h.retiring) e h.repr) in
      record {
        delivered = h.delivered;
        retiring = h.retiring ++ t ∷ [];
        waiting = ts;
        threaded = h.threaded;
        repr = run.1;
        all = simp (h.all, e, append_assoc);
        worked = simp (h.worked, e, busy, append_assoc, append-nil);
        called_back = rw (taken-append s.delivering h.retiring (t ∷ []) h.due) h.called_back;
        busy = λ e. cc;
        due = λ e. omega (arith, length-append {0} h.retiring (t ∷ []));
      }

  History-callback_called :
      s.delivering ≡ false
      → finished s.queue ≡ true
      → History k s accepted work main
      → History k (record s { delivering = true }) accepted work (main ++ callback_calls s.queue)
  History-callback_called idle some_work h =
      let (t, ts, e) = split h.retiring ((finished_iff h.repr).0 some_work) in
      let run = retire-Repr (subst (λ ts. Repr k s.queue ts h.waiting) e h.repr) in
      record {
        delivered = h.delivered;
        retiring = h.retiring;
        waiting = h.waiting;
        threaded = h.threaded;
        repr = h.repr;
        all = h.all;
        worked = h.worked;
        called_back =
            simp (h.called_back, e, idle, run.0, callback_events-append, append_assoc, append-nil);
        busy = h.busy;
        due = λ e. (finished_iff h.repr).0 some_work;
      }

  History-retired :
      s.delivering ≡ true
      → History k s accepted work main
      → History k (record s { queue = retire s.queue; delivering = false }) accepted work main
  unfolding retire
  History-retired busy h =
      let (t, ts, e) = split h.retiring (h.due busy) in
      let run = retire-Repr (subst (λ ts. Repr k s.queue ts h.waiting) e h.repr) in
      record {
        delivered = h.delivered ++ t ∷ [];
        retiring = ts;
        waiting = h.waiting;
        threaded = h.threaded;
        repr = run.1;
        all = simp (h.all, e, append_assoc);
        worked = simp (h.worked, e, append_assoc);
        called_back = simp (h.called_back, e, busy, append_assoc, append-nil);
        busy = h.busy;
        due = λ e. cc;
      }

pub Reach-History :
    {k : ℕ} {s : System} {accepted : List Task} {work main : List Event}
    → Reach k s accepted work main
    → History k s accepted work main
unfolding switch_thread init
Reach-History (start h h') = record {
  delivered = [];
  retiring = [];
  waiting = [];
  threaded = refl;
  repr =
      let r = init-Repr _ h h' in
      record {
        wide = h;
        narrow = h';
        mask_ones = r.mask_ones;
        ring = r.ring;
        tail_word = r.tail_word;
        curr_at = r.curr_at;
        head_at = r.head_at;
        room = r.room;
        holds = r.holds;
      };
  all = refl;
  worked = refl;
  called_back = refl;
  busy = λ e. cc;
  due = λ e. cc;
}
Reach-History (queued r t room) = History-queued t room (Reach-History r)
Reach-History (dropped {s} r t no_room) =
    let h = Reach-History r in rw (add-full s.queue t h.threaded no_room) h
Reach-History (process_called r idle work) = History-process_called idle work (Reach-History r)
Reach-History (advanced r busy) = History-advanced busy (Reach-History r)
Reach-History (callback_called r idle work) = History-callback_called idle work (Reach-History r)
Reach-History (retired r busy) = History-retired busy (Reach-History r)

-- The worker's calls are those of the tasks `delivered` and `processed`, which were queued before
-- all others, and the callbacks are those of the tasks `delivered`, which were queued first.
abbrev pub InOrder : List Task → List Event → List Event → Type 0
InOrder accepted work main =
    (delivered : List Task) × (processed : List Task) × (waiting : List Task) × (accepted
      ≡ delivered ++ processed ++ waiting)
    × (work ≡ process_events (delivered ++ processed))
    × (main ≡ callback_events delivered)

-- In every reachable system the worker has called the process methods of the tasks queued first,
-- each once and in their order, and the main thread has delivered callbacks for the first of
-- those, each once and in their order: no task is lost, repeated, overtaken or delivered early.
pub Reach-InOrder :
    {k : ℕ} {s : System} {accepted : List Task} {work main : List Event}
    → Reach k s accepted work main
    → InOrder accepted work main
Reach-InOrder {s} {accepted} {work} r =
    let h = Reach-History r in
    let (back, eb) = taken-split s.delivering h.retiring in
    let (later, el) = taken-split s.running h.waiting in
    let called = h.delivered ++ taken s.delivering h.retiring in
    let busy = back ++ taken s.running h.waiting in
    let all : accepted ≡ called ++ busy ++ later =
      h.all ∙ ap₂ (λ x y. h.delivered ++ x ++ y) eb el ∙ simp append_assoc in
    let worked : work ≡ process_events (called ++ busy) =
      h.worked
      ∙ ap (λ x. process_events (h.delivered ++ x ++ taken s.running h.waiting)) eb
      ∙ simp append_assoc in
    (called, busy, later, all, worked, h.called_back)
