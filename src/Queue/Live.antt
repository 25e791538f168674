-- ===== src/Queue/Live.antt =====
-- The two threads left to themselves: with no task added, every schedule of their steps ends, and only
-- when all tasks are processed and delivered.
use mathlib.Core.List.{append_assoc, append-nil}
use mathlib.Core.Path.{subst}
use native.Mathlib.Nat.{pow-le-pow_right}
use pdp.Base.{
  ℕ, suc, ◌+◌, ◌-◌, ◌*◌, ◌%◌, ◌^◌, ◌≤◌, ◌<◌, ◌≡◌, ◌⊎◌, inl, inr, refl, ap, ◌∙◌, sym, arith, Bool,
  true, false, Bool-cases, List, [], ◌∷◌, ◌++◌, length, length-append,
}
use pdp.Queue.{
  Task, Event, ProcQueue, pending, finished, process_calls, callback_calls, advance, retire,
}
use pdp.Queue.Repr.{Repr}
use pdp.Queue.Ops.{pending_iff, finished_iff}
use pdp.Queue.Threads.{
  System, Reach, process_called, advanced, callback_called, retired, Reach-History, process_events,
  callback_events,
}

-- A run of `n` steps of the threads from `s`, with the worker's calls and the callbacks' calls in it.
pub data Alone (s : System) : ℕ → System → List Event → List Event → Type 0 where
  still : Alone s 0 s [] []
  then_process :
      {n : ℕ} {s' : System} {w m : List Event}
      → Alone s n s' w m
      → s'.running ≡ false
      → pending s'.queue ≡ true
      → Alone s (suc n) (record s' { running = true }) (w ++ process_calls s'.queue) m
  then_advance :
      {n : ℕ} {s' : System} {w m : List Event}
      → Alone s n s' w m
      → s'.running ≡ true
      → Alone s (suc n) (record s' { queue = advance s'.queue; running = false }) w m
  then_callback :
      {n : ℕ} {s' : System} {w m : List Event}
      → Alone s n s' w m
      → s'.delivering ≡ false
      → finished s'.queue ≡ true
      → Alone s (suc n) (record s' { delivering = true }) w (m ++ callback_calls s'.queue)
  then_retire :
      {n : ℕ} {s' : System} {w m : List Event}
      → Alone s n s' w m
      → s'.delivering ≡ true
      → Alone s (suc n) (record s' { queue = retire s'.queue; delivering = false }) w m

module _ {k : ℕ} {s : System} {accepted : List Task} {work main : List Event}
    (r : Reach k s accepted work main) where
  -- A run continues what was reached.
  Reach-Alone :
      {n : ℕ} {s' : System} {w m : List Event}
      → Alone s n s' w m
      → Reach k s' accepted (work ++ w) (main ++ m)
  Reach-Alone still =
      subst (λ e. Reach k s accepted e (main ++ [])) (sym (append-nil work))
        (subst (λ e. Reach k s accepted work e) (sym (append-nil main)) r)
  Reach-Alone (then_process {s'} {w} {m} a idle some_work) =
      subst (λ e. Reach k (record s' { running = true }) accepted e (main ++ m))
        (append_assoc work w (process_calls s'.queue))
        (process_called (Reach-Alone a) idle some_work)
  Reach-Alone (then_advance a busy) = advanced (Reach-Alone a) busy
  Reach-Alone (then_callback {s'} {w} {m} a idle some_work) =
      subst (λ e. Reach k (record s' { delivering = true }) accepted (work ++ w) e)
        (append_assoc main m (callback_calls s'.queue))
        (callback_called (Reach-Alone a) idle some_work)
  Reach-Alone (then_retire a busy) = retired (Reach-Alone a) busy

-- How many tasks are to be processed, and how many to be called back, by the counters.
abbrev todo : ProcQueue → ℕ
todo q = (q.head + 2 ^ 32 - q.curr) % 2 ^ 32

abbrev due : ProcQueue → ℕ
due q = (q.curr + 2 ^ 32 - q.tail) % 2 ^ 32

record Counts (q : ProcQueue) (retiring waiting : List Task) : Type 0 where
  few : length retiring + length waiting < 2 ^ 31
  waits : todo q ≡ length waiting
  retires : due q ≡ length retiring
  small : (q.head < 2 ^ 32) × (q.curr < 2 ^ 32) × (q.tail < 2 ^ 32)

Repr-Counts :
    {k : ℕ} {q : ProcQueue} {retiring waiting : List Task}
    → Repr k q retiring waiting
    → Counts q retiring waiting
Repr-Counts {k} {q} {retiring} {waiting} r =
    let bound : 2 ^ k ≤ 2 ^ 31 = pow-le-pow_right (omega arith) r.narrow in
    let few : length retiring + length waiting < 2 ^ 31 = omega (arith, r.room, bound) in
    record {
      few = few;
      waits = omega (arith, few, r.tail_word, r.curr_at, r.head_at);
      retires = omega (arith, few, r.tail_word, r.curr_at);
      small = (omega (arith, r.head_at), omega (arith, r.curr_at), r.tail_word);
    }

advance-todo :
    {q : ProcQueue} {retiring waiting : List Task}
    → Counts q retiring waiting
    → 0 < length waiting
    → (todo (advance q) + 1 ≡ todo q) × (due (advance q) ≡ due q + 1)
unfolding advance
advance-todo {q} c some_work = (
  omega (arith, some_work, c.few, c.waits, c.retires, c.small),
  omega (arith, some_work, c.few, c.waits, c.retires, c.small),
)

retire-due :
    {q : ProcQueue} {retiring waiting : List Task}
    → Counts q retiring waiting
    → 0 < length retiring
    → (todo (retire q) ≡ todo q) × (due (retire q) + 1 ≡ due q)
unfolding retire
retire-due {q} c some_work = (refl, omega (arith, some_work, c.few, c.waits, c.retires, c.small))

-- The steps to the end, if no thread stood in the middle of one.
abbrev effort : System → ℕ
effort s = 4 * todo s.queue + 2 * due s.queue

abbrev one : Bool → ℕ
one true = 1
one false = 0

-- The effort of a reachable system is at most that of all its tasks, and covers the steps begun.
effort_bound :
    {k : ℕ} {s : System} {accepted : List Task} {work main : List Event}
    → Reach k s accepted work main
    → (effort s ≤ 4 * length accepted) × (one s.running + one s.delivering ≤ effort s)
effort_bound {s} r =
    let h = Reach-History r in
    let c = Repr-Counts h.repr in
    let size = ap length h.all ∙ length-append {0} (h.delivered ++ h.retiring) h.waiting in
    let rest = length-append {0} h.delivered h.retiring in
    (omega (arith, c.waits, c.retires, size, rest), begun s.running s.delivering h.busy h.due)
  where
    begun :
        (b d : Bool)
        → (b ≡ true → 0 < length (Reach-History r).waiting)
        → (d ≡ true → 0 < length (Reach-History r).retiring)
        → one b + one d ≤ effort s
    begun false false busy owed = omega arith
    begun true false busy owed =
        omega (arith, busy refl, (Repr-Counts (Reach-History r).repr).waits)
    begun false true busy owed =
        omega (arith, owed refl, (Repr-Counts (Reach-History r).repr).retires)
    begun true true busy owed = omega (
      arith,
      busy refl,
      owed refl,
      (Repr-Counts (Reach-History r).repr).waits,
      (Repr-Counts (Reach-History r).repr).retires,
    )

module _ {k : ℕ} {s : System} {accepted : List Task} {work main : List Event}
    (r : Reach k s accepted work main) where
  -- Each step takes one off.
  Alone-effort :
      {n : ℕ} {s' : System} {w m : List Event}
      → Alone s n s' w m
      → effort s + one s'.running + one s'.delivering
        ≡ n + effort s' + one s.running + one s.delivering
  Alone-effort still = omega arith
  Alone-effort (then_process {s'} a idle some_work) =
      let so_far = Alone-effort a in omega (arith, so_far, ap one idle)
  Alone-effort (then_advance {s'} a busy) =
      let h = Reach-History (Reach-Alone r a) in
      let round = advance-todo (Repr-Counts h.repr) (h.busy busy) in
      let so_far = Alone-effort a in omega (arith, so_far, ap one busy, round)
  Alone-effort (then_callback {s'} a idle some_work) =
      let so_far = Alone-effort a in omega (arith, so_far, ap one idle)
  Alone-effort (then_retire {s'} a busy) =
      let h = Reach-History (Reach-Alone r a) in
      let round = retire-due (Repr-Counts h.repr) (h.due busy) in
      let so_far = Alone-effort a in omega (arith, so_far, ap one busy, round)

-- A thread can go on.
abbrev pub CanStep : System → Type 0
CanStep s = (t : System) × (w : List Event) × (m : List Event) × Alone s 1 t w m

-- All that was accepted is processed and called back.
abbrev pub AllDone : List Task → List Event → List Event → Type 0
AllDone accepted work main = (work ≡ process_events accepted) × (main ≡ callback_events accepted)

-- A run of the threads alone is bounded, and stops only when all is done.
abbrev pub Drains : ℕ → System → List Task → List Event → List Event → Type 0
Drains n s accepted work main = (n ≤ 4 * length accepted) × (CanStep s ⊎ AllDone accepted work main)

empty_of : (ts : List Task) → length ts ≡ 0 → ts ≡ []
empty_of [] h = refl
empty_of (t ∷ ts) h = absurd (omega arith)

idle_done :
    {k : ℕ} {s : System} {accepted : List Task} {work main : List Event}
    → Reach k s accepted work main
    → s.running ≡ false
    → s.delivering ≡ false
    → pending s.queue ≡ false
    → finished s.queue ≡ false
    → AllDone accepted work main
idle_done r free idle no_work none_due =
    let h = Reach-History r in
    let nothing : h.waiting ≡ [] = empty_of h.waiting (ground (arith, (pending_iff h.repr).1)) in
    let none_left : h.retiring ≡ [] =
      empty_of h.retiring (ground (arith, (finished_iff h.repr).1)) in
    (
      simp (h.worked, h.all, nothing, none_left, free, append-nil),
      simp (h.called_back, h.all, nothing, none_left, idle, append-nil),
    )

-- A system where no thread can go on has done everything.
step_or_done :
    {k : ℕ} {s : System} {accepted : List Task} {work main : List Event}
    → Reach k s accepted work main
    → CanStep s ⊎ AllDone accepted work main
step_or_done {s} {accepted} {work} {main} r = elim (Bool-cases s.running) [
  | inl busy ↦ inl (_, _, _, then_advance still busy)
  | inr free ↦ elim (Bool-cases s.delivering) [
    | inl busy ↦ inl (_, _, _, then_retire still busy)
    | inr idle ↦ elim (Bool-cases (pending s.queue)) [
      | inl some_work ↦ inl (_, _, _, then_process still free some_work)
      | inr no_work ↦ elim (Bool-cases (finished s.queue)) [
        | inl some_due ↦ inl (_, _, _, then_callback still idle some_due)
        | inr none_due ↦ inr (idle_done r free idle no_work none_due)
      ]
    ]
  ]
]

-- From every reachable system, a run in which no task is added, whatever the schedule of the two
-- threads is, has at most four steps for each task accepted so far; and while not every accepted task is
-- processed and called back, each once and in order, a thread can go on. So the queue is drained.
pub Reach-Drains :
    {k n : ℕ} {s s' : System} {accepted : List Task} {work main w m : List Event}
    → Reach k s accepted work main
    → Alone s n s' w m
    → Drains n s' accepted (work ++ w) (main ++ m)
Reach-Drains r run =
    let later = Reach-Alone r run in
    let steps = Alone-effort r run in
    (omega (arith, steps, (effort_bound r).0, (effort_bound later).1), step_or_done later)
