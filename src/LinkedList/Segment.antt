-- ===== src/LinkedList/Segment.antt =====
-- The chain of atoms from one pointer to another, as a list of addresses with their items, and
-- what it means that a header stands for such a list.
use mathlib.Core.Bool.{or_assoc}
use pdp.Base.{
  ℕ, ◌≡◌, ◌≢◌, refl, ap, ◌∙◌, sym, arith, Bool, true, false, ◌||◌, Option, none, some, List, [],
  ◌∷◌, ◌++◌, ◌==◌, length, inl, inr, Bool-cases, ok,
}
use pdp.LinkedList.{Item, Atom, LinkedList, Heap, write, set_next}

abbrev pub Cells : Type 0
Cells = List (ℕ × Item)

abbrev pub at : Cells → ℕ → Bool
at [] a = false
at ((p, i) ∷ xs) a = (p == a) || at xs a

abbrev pub items : Cells → List Item
items [] = []
items ((p, i) ∷ xs) = i ∷ items xs

abbrev pub Apart : Cells → Cells → Type 0
Apart xs ys = (a : ℕ) → at xs a ≡ true → at ys a ≡ false

-- From `p` the pointers lead through the different atoms `xs` to `stop`.
pub data Segment (h : Heap) (stop : Option ℕ) : Option ℕ → Cells → Type 0 where
  here : Segment h stop stop []
  linked :
      {p : ℕ} {q : Option ℕ} {i : Item} {xs : Cells}
      → h p ≡ some (record { next = q; item = i })
      → at xs p ≡ false
      → Segment h stop q xs
      → Segment h stop (some p) ((p, i) ∷ xs)

-- The address of the last cell.
abbrev pub last_of : Cells → Option ℕ
last_of [] = none
last_of ((p, i) ∷ []) = some p
last_of ((p, i) ∷ x ∷ xs) = last_of (x ∷ xs)

-- The header `l` stands for the cells `xs`.
pub record IsList (h : Heap) (l : LinkedList) (xs : Cells) : Type 0 where
  pub chain : Segment h none l.first xs
  pub count : l.elements ≡ length xs
  pub end : l.last ≡ last_of xs

pub write_self : (h : Heap) (p : ℕ) (c : Option Atom) → write h p c p ≡ c
unfolding write
write_self h p c = ground arith

pub write_ne : (h : Heap) (p q : ℕ) (c : Option Atom) → q ≢ p → write h p c q ≡ h q
unfolding write
write_ne h p q c ne = ground arith

pub at-append : (xs ys : Cells) (a : ℕ) → at (xs ++ ys) a ≡ (at xs a || at ys a)
at-append [] ys a = refl
at-append ((p, i) ∷ xs) ys a = rw (at-append xs ys a, or_assoc) refl

pub at_ne : (xs : Cells) (p a : ℕ) (i : Item) → at ((p, i) ∷ xs) a ≡ false → a ≢ p
at_ne xs p a i out = ground arith

pub at_tail : (xs : Cells) (p a : ℕ) (i : Item) → at ((p, i) ∷ xs) a ≡ false → at xs a ≡ false
at_tail xs p a i out = ground arith

pub set_next-write :
    (h : Heap) (p : ℕ) (q r : Option ℕ) (i : Item)
    → h p ≡ some (record { next = q; item = i })
    → set_next h (some p) r ≡ ok (write h p (some (record { next = r; item = i })))
unfolding set_next
set_next-write h p q r i e = rw (e, set_next) refl

-- A write elsewhere leaves a segment as it is.
pub Segment-write :
    {h : Heap} {stop start : Option ℕ} {xs : Cells} (a : ℕ) (c : Option Atom)
    → Segment h stop start xs
    → at xs a ≡ false
    → Segment (write h a c) stop start xs
Segment-write a c here out = here
Segment-write {h} a c (linked {p} {i} {xs} e new s) out =
    linked (write_ne h a p c (λ same. at_ne xs p a i out (sym same)) ∙ e) new
      (Segment-write a c s (at_tail xs p a i out))

-- A heap that agrees on the segment's own atoms has the segment too.
pub Segment-agree :
    {h h' : Heap} {stop start : Option ℕ} {xs : Cells}
    → Segment h stop start xs
    → ((a : ℕ) → at xs a ≡ true → h' a ≡ h a)
    → Segment h' stop start xs
Segment-agree here same = here
Segment-agree (linked {p} e new s) same =
    linked (same p (ground arith) ∙ e) new (Segment-agree s λ a inside. same a (ground arith))

pub Apart-sym : (xs ys : Cells) → Apart xs ys → Apart ys xs
Apart-sym xs ys apart a inside = elim (Bool-cases (at xs a)) [
  | inl both ↦ absurd (cc (apart a both))
  | inr out ↦ out
]

-- An address that holds nothing lies in no segment.
pub at-unused :
    {h : Heap} {stop start : Option ℕ} {xs : Cells} (a : ℕ)
    → Segment h stop start xs
    → h a ≡ none
    → at xs a ≡ false
at-unused a here unused = refl
at-unused a (linked {p} e new s) unused = ground (arith, at-unused a s unused)

-- A segment ends where another one starts.
pub Segment-append :
    {h : Heap} {stop mid start : Option ℕ} {xs ys : Cells}
    → Segment h mid start xs
    → Segment h stop mid ys
    → Apart xs ys
    → Segment h stop start (xs ++ ys)
Segment-append here t apart = t
Segment-append {ys} (linked {p} {xs} e new s) t apart =
    linked e (rw (at-append xs ys p, new) (apart p (ground arith)))
      (Segment-append s t λ a inside. apart a (ground arith))

-- The same cells, led to another place by their last link.
pub Segment-relink :
    {h : Heap} {old start : Option ℕ} {xs : Cells} (e : ℕ) (stop : Option ℕ)
    → Segment h old start xs
    → last_of xs ≡ some e
    → (h' : Heap) × (set_next h (some e) stop ≡ ok h')
      × Segment h' stop start xs
      × ((a : ℕ) → at xs a ≡ false → h' a ≡ h a)
Segment-relink e stop here end = absurd (cc)
Segment-relink {h} {old} e stop (linked {p} {i} got new here) end =
    let same : p ≡ e = cc in
    let moved = write h p (some (record { next = stop; item = i })) in
    (
      moved,
      ap (λ a. set_next h (some a) stop) (sym same) ∙ set_next-write h p old stop i got,
      linked (write_self h p (some (record { next = stop; item = i }))) refl here,
      λ a out. write_ne h p a (some (record { next = stop; item = i })) (at_ne [] p a i out),
    )
Segment-relink {h} e stop (linked {p} {i} got new (linked {p = p'} {i = i'} {xs} got' new' s)) end =
    let (h', done, chain, others) = Segment-relink e stop (linked got' new' s) end in
    (
      h',
      done,
      linked (others p new ∙ got) new chain,
      λ a out. others a (at_tail ((p', i') ∷ xs) p a i out),
    )
