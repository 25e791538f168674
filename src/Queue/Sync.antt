-- ===== src/Queue/Sync.antt =====
-- The main thread's synchronisation: the callback loop to its end, the cancelling of a task, and
-- the switch of the thread.
use mathlib.Core.List.{append-nil}
use native.Mathlib.Nat.{mod-lt, mod-mod}
use native.Mathlib.Decide.{dec_lt, ℕ_discrete}
use pdp.Base.{
  ℕ, zero, suc, ◌+◌, ◌%◌, ◌^◌, ◌<◌, ◌≡◌, ◌≢◌, ◌↔◌, refl, ap, ◌∙◌, sym, arith, true, List, [], ◌∷◌,
  some, length, get_elem?, get_or, set, length-set, get_elem?-set_self, get_elem?-set_ne,
  Bool-cases, inl, inr,
}
use pdp.Base.Bits.{pow_pos}
use pdp.Queue.{
  Task, empty_task, ProcQueue, slot, finished, retire, callback_loop, run_callbacks, all_processed,
  cancel, finish, pending,
}
use pdp.Queue.Index.{offsets_differ}
use pdp.Queue.Repr.{Repr, Holds, slot-mod, slot-ahead, get_elem?-lt, get_or_of_get_elem?}
use pdp.Queue.Ops.{finished_iff, pending_iff, retire-Repr}
use pdp.Queue.Threads.{callback_events}

callback_loop_lem :
    (fuel : ℕ) {k : ℕ} (q : ProcQueue) (retiring : List Task) {waiting : List Task}
    → Repr k q retiring waiting
    → length retiring < fuel
    → ((callback_loop fuel q).1 ≡ callback_events retiring)
      × Repr k (callback_loop fuel q).0 [] waiting
unfolding callback_loop
callback_loop_lem zero q retiring r h = absurd (omega arith)
callback_loop_lem (suc fuel) q [] r h = elim (Bool-cases (finished q)) [
  | inl due ↦ absurd (omega (arith, (finished_iff r).0 due))
  | inr idle ↦ rw idle (refl, r)
]
callback_loop_lem (suc fuel) q (t ∷ ts) r h =
    let round = retire-Repr r in
    let rest = callback_loop_lem fuel (retire q) ts round.1 (omega arith) in
    rw ((finished_iff r).1 (omega arith)) (rw (round.0, rest.0) refl, rest.1)

-- Run without interference, `pdp_procqueue_callback` ends within as many rounds as there are slots, has
-- called back every processed task once and in order, and leaves the waiting tasks alone. Meanwhile
-- the worker advances past no task and no callback adds or cancels one.
pub run_callbacks_lem :
    {k : ℕ} {q : ProcQueue} {retiring waiting : List Task}
    → Repr k q retiring waiting
    → ((run_callbacks q).1 ≡ callback_events retiring) × Repr k (run_callbacks q).0 [] waiting
unfolding run_callbacks
run_callbacks_lem {q} {retiring} r =
    callback_loop_lem (q.mask + 1) q retiring r (omega (arith, r.room, r.mask_ones))

-- The slot of a processed task's index, as `pdp_procqueue_add` stored it.
abbrev pub index_of : ProcQueue → ℕ → ℕ
index_of q j = slot q ((q.tail + j) % 2 ^ 32)

Holds-set :
    (k : ℕ) (slots : List Task) (c : ℕ) (xs : List Task) (j : ℕ) (t : Task)
    → length slots ≡ 2 ^ k
    → length xs < 2 ^ k
    → j < length xs
    → Holds k slots c xs
    → Holds k (set slots ((c + j) % 2 ^ k) t) c (set xs j t)
Holds-set k slots c xs j t ring room inside holds i x e = elim (ℕ_discrete i j) [
  | yes same ↦
      let value : some t ≡ some x =
        sym (get_elem?-set_self xs j t inside) ∙ ap (get_elem? (set xs j t)) (sym same) ∙ e in
      ap (λ n. get_elem? (set slots ((c + j) % 2 ^ k) t) ((c + n) % 2 ^ k)) same
      ∙ get_elem?-set_self slots _ t (omega (arith, mod-lt (c + j) (pow_pos k)))
      ∙ value
  | no other ↦
      let old : get_elem? xs i ≡ some x =
        sym (get_elem?-set_ne xs j i t (λ p. other (sym p))) ∙ e in
      get_elem?-set_ne slots _ _ t (apart i (get_elem?-lt xs i old) other) ∙ holds i x old
]
  where
    apart : (i : ℕ) → i < length xs → i ≢ j → (c + j) % 2 ^ k ≢ (c + i) % 2 ^ k
    apart i h ne = elim (dec_lt i j) [
      | yes less ↦ λ p. offsets_differ (2 ^ k) c i j less (omega arith) (sym p)
      | no more ↦ offsets_differ (2 ^ k) c j i (omega arith) (omega arith)
    ]

-- After `pdp_procqueue_finish` on the index of a task that still awaits its callback, the queue
-- holds that task without callback and id, and every other task as before.
pub finish-Repr :
    {k : ℕ} {q : ProcQueue} {retiring : List Task} (j : ℕ) (t : Task)
    → Repr k q retiring []
    → get_elem? retiring j ≡ some t
    → Repr k (finish q (some (index_of q j))) (set retiring j (cancel t)) []
unfolding finish
finish-Repr {k} {q} {retiring} j t r e =
    let index : index_of q j ≡ (q.tail + j) % 2 ^ k =
      slot-ahead k q q.tail j r.mask_ones r.narrow in
    let again : slot q (index_of q j) ≡ (q.tail + j) % 2 ^ k =
      slot-mod k q (index_of q j) r.mask_ones ∙ ap (λ x. x % 2 ^ k) index ∙ mod-mod _ _ in
    let held : Holds k q.slots q.tail retiring = rw append-nil at r.holds in
    let found : get_or q.slots (slot q (index_of q j)) empty_task ≡ t =
      get_or_of_get_elem? q.slots _ empty_task (ap (get_elem? q.slots) again ∙ held j t e) in
    let inside : j < length retiring = get_elem?-lt retiring j e in
    let size = length-set retiring j (cancel t) in
    record {
      wide = r.wide;
      narrow = r.narrow;
      mask_ones = r.mask_ones;
      ring = length-set q.slots _ _ ∙ r.ring;
      tail_word = r.tail_word;
      curr_at = omega (arith, r.curr_at, size);
      head_at = omega (arith, r.head_at, size);
      room = omega (arith, r.room, size);
      holds =
          rw (append-nil, found, again)
            (Holds-set k q.slots q.tail retiring j (cancel t) r.ring (omega (arith, r.room)) inside
              held);
    }

-- `pdp_procqueue_wait` lets its caller go exactly when no task waits to be processed.
pub all_processed_iff :
    {k : ℕ} {q : ProcQueue} {retiring waiting : List Task}
    → Repr k q retiring waiting
    → (all_processed q ≡ true) ↔ (length waiting ≡ 0)
unfolding all_processed pending
all_processed_iff r =
    (λ e. ground (arith, (pending_iff r).1), λ e. ground (arith, (pending_iff r).0))
