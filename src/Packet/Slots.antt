-- ===== src/Packet/Slots.antt =====
-- The laws of the pool's slots and of the scan through them.
use pdp.Base.{
  ℕ, zero, suc, ◌+◌, ◌-◌, ◌≤◌, ◌<◌, ◌≡◌, ◌≢◌, refl, ap, ◌∙◌, arith, Bool, true, Option, none, some,
  List, [], ◌∷◌, ◌++◌, inl, inr, Bool-cases, length, get_or, replicate, get_or-set_self,
  get_or-set_ne,
}
use pdp.Packet.{Header, Pool, header, put, set_fifo}
use pdp.Packet.Factory.{find_from, map_slot}

module _ {ℓ} {A : Type ℓ} where
  get_or-past : (xs : List A) (i : ℕ) (d : A) → length xs ≤ i → get_or xs i d ≡ d
  get_or-past [] i d h = refl
  get_or-past (x ∷ xs) zero d h = absurd (omega arith)
  get_or-past (x ∷ xs) (suc i) d h = get_or-past xs i d (omega arith)

-- A slot that holds a packet lies in the pool.
pub header_inside :
    (pool : Pool) (p : ℕ) {h : Header} → header pool p ≡ some h → p < length pool.slots
unfolding header
header_inside pool p e = inside pool.slots p e
  where
    inside :
        (ss : List (Option Header)) (p : ℕ) {h : Header} → get_or ss p none ≡ some h → p < length ss
    inside [] p e = cc
    inside (s ∷ ss) zero e = omega arith
    inside (s ∷ ss) (suc p) e = omega (arith, inside ss p e)

pub header-put_self :
    (pool : Pool) (p : ℕ) (s : Option Header) → p < length pool.slots → header (put pool p s) p ≡ s
unfolding header put
header-put_self pool p s h = get_or-set_self pool.slots p s none h

pub header-put_ne :
    (pool : Pool) (p q : ℕ) (s : Option Header) → p ≢ q → header (put pool p s) q ≡ header pool q
unfolding header put
header-put_ne pool p q s ne = get_or-set_ne pool.slots p q s none ne

pub header-set_fifo :
    (pool : Pool) (s p : ℕ) (ps : List ℕ) → header (set_fifo pool s ps) p ≡ header pool p
unfolding header set_fifo
header-set_fifo pool s p ps = refl

pub header-slots : (w w' : Pool) (q : ℕ) → w.slots ≡ w'.slots → header w q ≡ header w' q
unfolding header
header-slots w w' q same = ap (λ ss. get_or ss q none) same

pub map_slot-put :
    (f : Header → Header) (pool : Pool) (p : ℕ) {h : Header}
    → header pool p ≡ some h
    → map_slot f pool p ≡ put pool p (some (f h))
map_slot-put f pool p e = rw (e, map_slot) refl

-- What the scan finds passes the test and lies in the pool.
pub find_from-passes :
    (test : Option Header → Bool) (p : ℕ) (ss : List (Option Header)) {q : ℕ}
    → find_from test p ss ≡ some q
    → (p ≤ q) × (q < p + length ss) × (test (get_or ss (q - p) none) ≡ true)
unfolding find_from
find_from-passes test p [] e = absurd (cc)
find_from-passes test p (s ∷ ss) {q} e = elim (Bool-cases (test s)) [
  | inl hit ↦
      let here : p ≡ q = ground arith in
      (omega arith, omega arith, ap (λ i. test (get_or (s ∷ ss) i none)) (first here) ∙ hit)
  | inr miss ↦
      let rest : find_from test (suc p) ss ≡ some q = ground arith in
      let (low, high, hit) = find_from-passes test (suc p) ss rest in
      (omega arith, omega arith, ap (λ i. test (get_or (s ∷ ss) i none)) (later low) ∙ hit)
]
  where
    first : p ≡ q → q - p ≡ 0
    first here = omega arith

    later : suc p ≤ q → q - p ≡ suc (q - suc p)
    later low = omega arith

-- The scan of the whole pool.
pub find_from-header :
    (test : Option Header → Bool) (pool : Pool) {q : ℕ}
    → find_from test 0 pool.slots ≡ some q
    → (q < length pool.slots) × (test (header pool q) ≡ true)
unfolding header
find_from-header test pool {q} e =
    let (low, high, hit) = find_from-passes test 0 pool.slots e in
    let same : q ≡ q - 0 = omega arith in
    (omega arith, ap (λ i. test (get_or pool.slots i none)) same ∙ hit)

-- Where a slot passes the test, the scan finds one.
pub find_from-finds :
    (test : Option Header → Bool) (p : ℕ) (ss : List (Option Header)) (i : ℕ)
    → i < length ss
    → test (get_or ss i none) ≡ true
    → find_from test p ss ≢ none
unfolding find_from
find_from-finds test p [] i inside hit e = absurd (omega arith)
find_from-finds test p (s ∷ ss) zero inside hit e = ground arith
find_from-finds test p (s ∷ ss) (suc i) inside hit e = elim (Bool-cases (test s)) [
  | inl here ↦ ground arith
  | inr miss ↦ find_from-finds test (suc p) ss i (omega arith) hit (ground arith)
]

-- The slots that the pool grows by are empty.
pub get_or-append_replicate :
    (ss : List (Option Header)) (n : ℕ) → get_or (ss ++ replicate n none) (length ss) none ≡ none
get_or-append_replicate [] zero = refl
get_or-append_replicate [] (suc n) = refl
get_or-append_replicate (s ∷ ss) n = get_or-append_replicate ss n

pub get_or-append_none :
    (ss : List (Option Header)) (n i : ℕ)
    → get_or (ss ++ replicate n none) i none ≡ get_or ss i none
get_or-append_none [] n i = empty n i
  where
    empty : (n i : ℕ) → let d : Option Header = none in get_or (replicate n d) i d ≡ d
    empty zero i = refl
    empty (suc n) zero = refl
    empty (suc n) (suc i) = empty n i
get_or-append_none (s ∷ ss) n zero = refl
get_or-append_none (s ∷ ss) n (suc i) = get_or-append_none ss n i
