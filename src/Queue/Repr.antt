-- ===== src/Queue/Repr.antt =====
-- What a queue holds: the tasks that wait for their callback, then those that wait to be processed.
use Prim.Native.Nat.{bit_and}
use native.Mathlib.Nat.{mod-lt}
use native.Mathlib.Decide.{dec_lt}
use pdp.Base.{
  ℕ, zero, suc, ◌+◌, ◌-◌, ◌%◌, ◌^◌, ◌≤◌, ◌<◌, ◌≡◌, refl, ap, ◌∙◌, sym, arith, List, [], ◌∷◌, ◌++◌,
  some, length, get_elem?, get_or, set, length-append, get_elem?-set_self, get_elem?-set_ne,
}
use pdp.Base.Bits.{bit_and_mask, mod_u32-mod, pow_pos}
use pdp.Queue.{Task, empty_task, ProcQueue, slot, incr}
use pdp.Queue.Index.{offsets_differ}

-- From counter `t` on, the ring of `2 ^ k` slots holds `xs`.
abbrev pub Holds : ℕ → List Task → ℕ → List Task → Type 0
Holds k slots t xs =
    (j : ℕ) (x : Task) → get_elem? xs j ≡ some x → get_elem? slots ((t + j) % 2 ^ k) ≡ some x

-- `retiring` tasks await their callback, `waiting` ones their processing, each oldest first.
pub record Repr (k : ℕ) (q : ProcQueue) (retiring waiting : List Task) : Type 0 where
  pub wide : 1 ≤ k
  pub narrow : k ≤ 31
  pub mask_ones : q.mask ≡ 2 ^ k - 1
  pub ring : length q.slots ≡ 2 ^ k
  pub tail_word : q.tail < 2 ^ 32
  pub curr_at : q.curr ≡ (q.tail + length retiring) % 2 ^ 32
  pub head_at : q.head ≡ (q.tail + (length retiring + length waiting)) % 2 ^ 32
  pub room : length retiring + length waiting < 2 ^ k
  pub holds : Holds k q.slots q.tail (retiring ++ waiting)

pub get_elem?-lt {ℓ} :
    {A : Type ℓ} (xs : List A) (j : ℕ) {x : A} → get_elem? xs j ≡ some x → j < length xs
get_elem?-lt [] j e = cc
get_elem?-lt (y ∷ xs) zero e = omega arith
get_elem?-lt (y ∷ xs) (suc j) e = omega (arith, get_elem?-lt xs j e)

pub get_elem?-append {ℓ} :
    {A : Type ℓ} (xs ys : List A) (j : ℕ) → j < length xs → get_elem? (xs ++ ys) j ≡ get_elem? xs j
get_elem?-append [] ys j h = absurd (omega arith)
get_elem?-append (x ∷ xs) ys zero h = refl
get_elem?-append (x ∷ xs) ys (suc j) h = get_elem?-append xs ys j (omega arith)

pub get_elem?-append_end {ℓ} :
    {A : Type ℓ} (xs : List A) (y : A) (ys : List A) → get_elem? (xs ++ y ∷ ys) (length xs) ≡ some y
get_elem?-append_end [] y ys = refl
get_elem?-append_end (x ∷ xs) y ys = get_elem?-append_end xs y ys

pub get_or_of_get_elem? {ℓ} :
    {A : Type ℓ} (xs : List A) (i : ℕ) {x : A} (d : A) → get_elem? xs i ≡ some x → get_or xs i d ≡ x
get_or_of_get_elem? [] i d e = cc
get_or_of_get_elem? (y ∷ xs) zero d e = cc
get_or_of_get_elem? (y ∷ xs) (suc i) d e = get_or_of_get_elem? xs i d e

pub slot-mod : (k : ℕ) (q : ProcQueue) (x : ℕ) → q.mask ≡ 2 ^ k - 1 → slot q x ≡ x % 2 ^ k
slot-mod k q x e = ap (bit_and x) e ∙ bit_and_mask k x

-- A counter `n` steps on, wrapped to 32 bits, has the slot of the sum.
pub slot-ahead :
    (k : ℕ) (q : ProcQueue) (t n : ℕ)
    → q.mask ≡ 2 ^ k - 1
    → k ≤ 31
    → slot q ((t + n) % 2 ^ 32) ≡ (t + n) % 2 ^ k
slot-ahead k q t n e h = slot-mod k q _ e ∙ mod_u32-mod k (t + n) (omega arith)

-- Writing `t` behind the tasks extends what the ring holds.
pub Holds-append :
    (k : ℕ) (slots : List Task) (c : ℕ) (xs : List Task) (t : Task)
    → length slots ≡ 2 ^ k
    → length xs < 2 ^ k
    → Holds k slots c xs
    → Holds k (set slots ((c + length xs) % 2 ^ k) t) c (xs ++ t ∷ [])
Holds-append k slots c xs t ring room holds j x e = elim (dec_lt j (length xs)) [
  | yes old ↦
      let same : get_elem? xs j ≡ some x = sym (get_elem?-append xs (t ∷ []) j old) ∙ e in
      get_elem?-set_ne slots _ _ t (λ p. offsets_differ (2 ^ k) c j (length xs) old room (sym p))
      ∙ holds j x same
  | no new ↦
      let last : j ≡ length xs =
        omega (arith, get_elem?-lt (xs ++ t ∷ []) j e, length-append {0} xs (t ∷ [])) in
      let value : some t ≡ some x =
        sym (get_elem?-append_end xs t []) ∙ ap (get_elem? (xs ++ t ∷ [])) (sym last) ∙ e in
      ap (λ i. get_elem? (set slots ((c + length xs) % 2 ^ k) t) ((c + i) % 2 ^ k)) last
      ∙ get_elem?-set_self slots _ t (omega (arith, mod-lt (c + length xs) (pow_pos k)))
      ∙ value
]

-- Dropping the oldest task moves the counter on.
pub Holds-tail :
    (k : ℕ) (slots : List Task) (c : ℕ) (y : Task) (xs : List Task)
    → k ≤ 31
    → Holds k slots c (y ∷ xs)
    → Holds k slots (incr c) xs
Holds-tail k slots c y xs h holds j x e =
    let next : (incr c + j) % 2 ^ 32 ≡ (c + suc j) % 2 ^ 32 = omega arith in
    let same : (incr c + j) % 2 ^ k ≡ (c + suc j) % 2 ^ k =
      sym (mod_u32-mod k (incr c + j) (omega arith))
      ∙ ap (λ t. t % 2 ^ k) next
      ∙ mod_u32-mod k (c + suc j) (omega arith) in
    ap (get_elem? slots) same ∙ holds (suc j) x e

-- What a reader of the slot under a counter `n` steps on finds there.
pub read-ahead :
    (k : ℕ) (q : ProcQueue) (c : ℕ) (xs : List Task) (n i : ℕ) {x : Task}
    → q.mask ≡ 2 ^ k - 1
    → k ≤ 31
    → Holds k q.slots c xs
    → i ≡ (c + n) % 2 ^ 32
    → get_elem? xs n ≡ some x
    → get_or q.slots (slot q i) empty_task ≡ x
read-ahead k q c xs n i {x} ones h holds at e = get_or_of_get_elem? q.slots (slot q i) empty_task (
    ap (λ t. get_elem? q.slots (slot q t)) at
    ∙ ap (get_elem? q.slots) (slot-ahead k q c n ones h)
    ∙ holds n x e)
