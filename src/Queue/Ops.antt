-- ===== src/Queue/Ops.antt =====
-- Every operation of the queue, on every branch, over the tasks that it holds.
use Prim.Native.Nat.{bit_and}
use mathlib.Core.List.{append_assoc}
use mathlib.Core.Path.{ap₂}
use pdp.Base.{
  ℕ, ◌+◌, ◌-◌, ◌%◌, ◌^◌, ◌≤◌, ◌<◌, ◌≡◌, ◌↔◌, refl, ap, ◌∙◌, sym, arith, true, false, List, [], ◌∷◌,
  ◌++◌, some, none, length, get_or, length-append, length-set, length-replicate, eq→==, ==→eq,
}
use pdp.Base.Bits.{pow_pos}
use pdp.Queue.{
  Task, empty_task, ProcQueue, slot, diff, init, full, enqueue, add, pending, finished,
  process_calls, callback_calls, advance, retire, call, store_id,
}
use pdp.Queue.Repr.{Repr, Holds-append, Holds-tail, slot-ahead, read-ahead}
use pdp.Queue.Repr.{get_elem?-append_end}
use pdp.Queue.Index.{diff-ahead, diff-behind, diff-behind_zero}

-- A new queue of `2 ^ logsize` slots is empty.
pub init-Repr : (logsize : ℕ) → 1 ≤ logsize → logsize ≤ 31 → Repr logsize (init logsize) [] []
unfolding init
init-Repr k h h' = record {
  wide = h;
  narrow = h';
  mask_ones = refl;
  ring = length-replicate (2 ^ k) empty_task;
  tail_word = omega arith;
  curr_at = refl;
  head_at = refl;
  room = pow_pos k;
  holds = λ j x e. cc;
}

module _ {k : ℕ} {q : ProcQueue} {retiring waiting : List Task}
    (r : Repr k q retiring waiting) where
  open r use {wide, narrow, mask_ones, ring, tail_word, curr_at, head_at, room, holds}

  -- The queue is full exactly when one more task would fill the ring.
  pub full_iff : (full q ≡ true) ↔ (length retiring + length waiting + 1 ≡ 2 ^ k)
  unfolding full
  full_iff =
      let n : ℕ = length retiring + length waiting in
      let far : diff q q.tail q.head
          ≡ bit_and ((q.tail + 2 ^ 32 - (q.tail + n) % 2 ^ 32) % 2 ^ 32) (2 ^ k - 1) =
        ap₂ (λ h m. bit_and ((q.tail + 2 ^ 32 - h) % 2 ^ 32) m) head_at mask_ones in
      let exact = diff-behind k q.tail n tail_word room wide (omega arith) in
      (λ e. exact.0 (sym far ∙ sym (==→eq 1 _ e)), λ e. eq→== 1 _ (sym (far ∙ exact.1 e)))

  -- A task that is queued waits behind all others, if there is room.
  pub enqueue-Repr :
      (t : Task)
      → length retiring + length waiting + 1 < 2 ^ k
      → Repr k (enqueue q t) retiring (waiting ++ t ∷ [])
  unfolding enqueue
  enqueue-Repr t more = record {
    wide = wide;
    narrow = narrow;
    mask_ones = mask_ones;
    ring = length-set q.slots (slot q q.head) t ∙ ring;
    tail_word = tail_word;
    curr_at = curr_at;
    head_at = omega (arith, length-append {0} waiting (t ∷ []));
    room = omega (arith, length-append {0} waiting (t ∷ []));
    holds =
        rw (at_end, ← append_assoc)
          (Holds-append k q.slots q.tail (retiring ++ waiting) t ring (omega (arith, size)) holds);
  }
    where
      size : length (retiring ++ waiting) ≡ length retiring + length waiting
      size = length-append retiring waiting

      at_end : slot q q.head ≡ (q.tail + length (retiring ++ waiting)) % 2 ^ k
      at_end =
          ap (slot q) (head_at ∙ ap (λ n. (q.tail + n) % 2 ^ 32) (sym size))
          ∙ slot-ahead k q q.tail _ mask_ones narrow

  -- The worker finds work exactly when a task waits.
  pub pending_iff : (pending q ≡ true) ↔ (0 < length waiting)
  unfolding pending
  pending_iff =
      let n : ℕ = length waiting in
      let ahead : q.head ≡ (q.curr + n) % 2 ^ 32 = omega arith in
      let far : diff q q.curr q.head
          ≡ bit_and ((q.curr + 2 ^ 32 - (q.curr + n) % 2 ^ 32) % 2 ^ 32) (2 ^ k - 1) =
        ap₂ (λ h m. bit_and ((q.curr + 2 ^ 32 - h) % 2 ^ 32) m) ahead mask_ones in
      let exact = diff-behind_zero k q.curr n (omega arith) (omega arith) (omega arith) in
      (λ e. ground (arith, far, exact.1), λ e. ground (arith, far, exact.0))

  -- A callback is due exactly when a processed task has not been delivered.
  pub finished_iff : (finished q ≡ true) ↔ (0 < length retiring)
  unfolding finished
  finished_iff =
      let n : ℕ = length retiring in
      let far : diff q q.curr q.tail ≡ n =
        ap₂ (λ c m. bit_and ((c + 2 ^ 32 - q.tail) % 2 ^ 32) m) curr_at mask_ones
        ∙ diff-ahead k q.tail n tail_word (omega arith) (omega arith) in
      (λ e. ground (arith, far), λ e. ground (arith, far))

-- The worker's round runs the process method of the oldest waiting task, and hands it on.
pub process-Repr :
    {k : ℕ} {q : ProcQueue} {retiring waiting : List Task} {t : Task}
    → Repr k q retiring (t ∷ waiting)
    → (process_calls q ≡ call t.process t.owner) × Repr k (advance q) (retiring ++ t ∷ []) waiting
unfolding process_calls advance
process-Repr {k} {q} {retiring} {waiting} {t} r =
    let found : get_or q.slots (slot q q.curr) empty_task ≡ t =
      read-ahead k q q.tail (retiring ++ t ∷ waiting) (length retiring) q.curr r.mask_ones r.narrow
        r.holds r.curr_at (get_elem?-append_end retiring t waiting) in
    (
      ap (λ (u : Task). call u.process u.owner) found,
      record {
        wide = r.wide;
        narrow = r.narrow;
        mask_ones = r.mask_ones;
        ring = r.ring;
        tail_word = r.tail_word;
        curr_at = omega (arith, r.curr_at, length-append {0} retiring (t ∷ []));
        head_at = omega (arith, r.head_at, length-append {0} retiring (t ∷ []));
        room = omega (arith, r.room, length-append {0} retiring (t ∷ []));
        holds = rw append_assoc r.holds;
      },
    )

-- A round of the callback loop invalidates the id of the oldest processed task, calls it back,
-- and forgets it.
pub retire-Repr :
    {k : ℕ} {q : ProcQueue} {retiring waiting : List Task} {t : Task}
    → Repr k q (t ∷ retiring) waiting
    → (callback_calls q ≡ store_id t.queue_id none ++ call t.callback t.owner)
      × Repr k (retire q) retiring waiting
unfolding callback_calls retire
retire-Repr {k} {q} {retiring} {waiting} {t} r =
    let at_tail : q.tail ≡ (q.tail + 0) % 2 ^ 32 = omega (arith, r.tail_word) in
    let found : get_or q.slots (slot q q.tail) empty_task ≡ t =
      read-ahead k q q.tail (t ∷ retiring ++ waiting) 0 q.tail r.mask_ones r.narrow r.holds at_tail
        refl in
    (
      ap (λ (u : Task). store_id u.queue_id none ++ call u.callback u.owner) found,
      record {
        wide = r.wide;
        narrow = r.narrow;
        mask_ones = r.mask_ones;
        ring = r.ring;
        tail_word = omega arith;
        curr_at = omega (arith, r.curr_at);
        head_at = omega (arith, r.head_at);
        room = omega (arith, r.room);
        holds = Holds-tail k q.slots q.tail t (retiring ++ waiting) r.narrow r.holds;
      },
    )

-- `pdp_procqueue_add` without the thread makes both calls at once, and queues nothing.
pub add_direct :
    (q : ProcQueue) (t : Task)
    → q.use_thread ≡ false
    → add q t ≡ (q, store_id t.queue_id none ++ call t.process t.owner ++ call t.callback t.owner)
unfolding add
add_direct q t e = rw e

-- On a full queue the process method is skipped.
pub add-full :
    (q : ProcQueue) (t : Task)
    → q.use_thread ≡ true
    → full q ≡ true
    → add q t ≡ (q, store_id t.queue_id none ++ call t.callback t.owner)
unfolding add
add-full q t e e' = rw (e, e')

pub add_room :
    (q : ProcQueue) (t : Task)
    → q.use_thread ≡ true
    → full q ≡ false
    → add q t ≡ (enqueue q t, store_id t.queue_id (some (slot q q.head)))
unfolding add
add_room q t e e' = rw (e, e')
