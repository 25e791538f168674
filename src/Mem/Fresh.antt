-- ===== src/Mem/Fresh.antt =====
-- No atom is handed out while it is in use, and no two atoms overlap.
use mathlib.Core.Path.{subst}
use pdp.Base.{
  ℕ, zero, suc, ◌+◌, ◌*◌, ◌^◌, ◌≤◌, ◌<◌, ◌≡◌, ◌⊎◌, refl, ap, sym, arith, List, [], ◌∷◌, ◌++◌, inl,
  inr,
}
use pdp.Mem.{
  Fastalloc, link_size, block_bytes, fastalloc_new, link_atoms, refill, take_atom, new_atom,
  save_atom,
}

-- Two atoms of `size` bytes do not overlap.
abbrev pub Apart : ℕ → ℕ → ℕ → Type 0
Apart size a b = (a + size ≤ b) ⊎ (b + size ≤ a)

abbrev pub ApartFromAll : ℕ → ℕ → List ℕ → Type 0
ApartFromAll size a [] = Unit {0}
ApartFromAll size a (b ∷ bs) = Apart size a b × ApartFromAll size a bs

-- No two of the atoms overlap.
abbrev pub AllApart : ℕ → List ℕ → Type 0
AllApart size [] = Unit {0}
AllApart size (a ∷ rest) = ApartFromAll size a rest × AllApart size rest

-- A block of so many bytes lies before or behind each of the atoms.
abbrev pub BlockApart : ℕ → ℕ → ℕ → List ℕ → Type 0
BlockApart size block bytes [] = Unit {0}
BlockApart size block bytes (b ∷ bs) =
    ((block + bytes ≤ b) ⊎ (b + size ≤ block)) × BlockApart size block bytes bs

-- The allocator of atoms of `size` bytes, `suc n` in a block, after any calls, with the atoms in use. A
-- block from `malloc` overlaps no atom; an atom is given back by a user that has it.
pub data Reach (size n : ℕ) : Fastalloc → List ℕ → Type 0 where
  opened :
      (request : ℕ)
      → (fastalloc_new (suc n) request).atom_size ≡ size
      → Reach size n (fastalloc_new (suc n) request) []
  taken :
      {x : Fastalloc} {used : List ℕ}
      → Reach size n x used
      → (block : ℕ) → BlockApart size block (block_bytes x) used
      → Reach size n (new_atom x block).0 ((new_atom x block).1 ∷ used)
  saved :
      {x : Fastalloc} (before after : List ℕ) (atom : ℕ)
      → Reach size n x (before ++ (atom ∷ after))
      → Reach size n (save_atom x atom) (before ++ after)

-- What holds of the allocator at any time.
pub record Sound (size n : ℕ) (x : Fastalloc) (used : List ℕ) : Type 0 where
  pub size_kept : x.atom_size ≡ size
  pub elements_kept : x.block_elements ≡ suc n
  pub holds_link : link_size ≤ x.atom_size
  pub apart : AllApart size (x.freelist ++ used)

Apart-comm : (size a b : ℕ) → Apart size a b → Apart size b a
Apart-comm size a b (inl h) = inr h
Apart-comm size a b (inr h) = inl h

ApartFromAll-append :
    (size a : ℕ) (xs ys : List ℕ)
    → ApartFromAll size a xs
    → ApartFromAll size a ys
    → ApartFromAll size a (xs ++ ys)
ApartFromAll-append size a [] ys h k = k
ApartFromAll-append size a (x ∷ xs) ys h k = (h.0, ApartFromAll-append size a xs ys h.1 k)

-- An atom in the middle, taken to the front.
ApartFromAll-front :
    (size a b : ℕ) (xs ys : List ℕ)
    → ApartFromAll size a (xs ++ (b ∷ ys))
    → Apart size a b × ApartFromAll size a (xs ++ ys)
ApartFromAll-front size a b [] ys h = h
ApartFromAll-front size a b (x ∷ xs) ys h =
    let (near, rest) = ApartFromAll-front size a b xs ys h.1 in (near, (h.0, rest))

pub AllApart-front :
    (size b : ℕ) (xs ys : List ℕ)
    → AllApart size (xs ++ (b ∷ ys))
    → ApartFromAll size b (xs ++ ys) × AllApart size (xs ++ ys)
AllApart-front size b [] ys h = h
AllApart-front size b (x ∷ xs) ys h =
    let (near, rest) = ApartFromAll-front size x b xs ys h.0 in
    let (far, all) = AllApart-front size b xs ys h.1 in
    ((Apart-comm size x b near, far), (rest, all))

-- And back from the front to the middle.
ApartFromAll-middle :
    (size a b : ℕ) (xs ys : List ℕ)
    → Apart size a b
    → ApartFromAll size a (xs ++ ys)
    → ApartFromAll size a (xs ++ (b ∷ ys))
ApartFromAll-middle size a b [] ys near h = (near, h)
ApartFromAll-middle size a b (x ∷ xs) ys near h = (h.0, ApartFromAll-middle size a b xs ys near h.1)

pub AllApart-middle :
    (size b : ℕ) (xs ys : List ℕ)
    → ApartFromAll size b (xs ++ ys)
    → AllApart size (xs ++ ys)
    → AllApart size (xs ++ (b ∷ ys))
AllApart-middle size b [] ys h all = (h, all)
AllApart-middle size b (x ∷ xs) ys h all = (
  ApartFromAll-middle size x b xs ys (Apart-comm size b x h.0) all.0,
  AllApart-middle size b xs ys h.1 all.1,
)

-- The atoms of one block, and those of a block against others.
link_atoms-after :
    (size a block n : ℕ) → a + size ≤ block → ApartFromAll size a (link_atoms size block n)
unfolding link_atoms
link_atoms-after size a block zero h = tt
link_atoms-after size a block (suc n) h =
    (inl h, link_atoms-after size a (block + size) n (omega arith))

block-ApartFromAll :
    (size block n m : ℕ) (used : List ℕ)
    → m < n
    → BlockApart size block (size * n) used
    → ApartFromAll size (block + size * m) used
block-ApartFromAll size block n m [] h b = tt
block-ApartFromAll size block n m (u ∷ used) h b = (
  elim b.0 [ inl before ↦ inl (grind arith) | inr behind ↦ inr (omega arith) ],
  block-ApartFromAll size block n m used h b.1,
)

-- The atoms of a block that lie behind the first `m`.
block-AllApart :
    (size block k m : ℕ) (used : List ℕ)
    → BlockApart size block (size * (m + k)) used
    → AllApart size used
    → AllApart size (link_atoms size (block + size * m) k ++ used)
unfolding link_atoms
block-AllApart size block zero m used b all = all
block-AllApart size block (suc k) m used b all =
    let next : block + size * m + size ≡ block + size * suc m = grind arith in
    let more : BlockApart size block (size * (suc m + k)) used =
      subst (λ j. BlockApart size block (size * j) used) (shift m k) b in
    (
      ApartFromAll-append size (block + size * m) (link_atoms size (block + size * m + size) k) used
          (link_atoms-after size (block + size * m) (block + size * m + size) k (omega arith))
          (block-ApartFromAll size block (m + suc k) m used (omega arith) b),
      subst (λ start. AllApart size (link_atoms size start k ++ used)) (sym next)
          (block-AllApart size block k (suc m) used more all),
    )
  where
    shift : (m k : ℕ) → m + suc k ≡ suc m + k
    shift m k = omega arith

regroup : (xs ys zs : List ℕ) → xs ++ (ys ++ zs) ≡ (xs ++ ys) ++ zs
regroup [] ys zs = refl
regroup (x ∷ xs) ys zs = ap (λ l. x ∷ l) (regroup xs ys zs)

new_atom-first :
    (x : Fastalloc) (block a : ℕ) (rest : List ℕ)
    → x.freelist ≡ a ∷ rest
    → new_atom x block ≡ (record x { freelist = rest }, a)
unfolding new_atom
new_atom-first x block a rest e = rw (e, new_atom) (rw (e, take_atom) refl)

new_atom-refilled :
    (x : Fastalloc) (block n : ℕ)
    → x.freelist ≡ []
    → x.block_elements ≡ suc n
    → new_atom x block
      ≡ (record x { freelist = link_atoms x.atom_size (block + x.atom_size) n }, block)
unfolding new_atom refill link_atoms
new_atom-refilled x block n e count = rw (e, new_atom) (rw count refl)

new_atom-Sound :
    (size n : ℕ) (x : Fastalloc) (used : List ℕ) (block : ℕ)
    → Sound size n x used
    → BlockApart size block (size * suc n) used
    → Sound size n (new_atom x block).0 ((new_atom x block).1 ∷ used)
unfolding link_atoms
new_atom-Sound size n x used block s b = by_list x.freelist refl s.apart
  where
    by_list :
        (l : List ℕ)
        → x.freelist ≡ l
        → AllApart size (l ++ used)
        → Sound size n (new_atom x block).0 ((new_atom x block).1 ∷ used)
    by_list [] e all =
        let count : suc n ≡ 0 + suc n = omega arith in
        let cut : AllApart size (link_atoms size (block + size * 0) (suc n) ++ used) =
          block-AllApart size block (suc n) 0 used
            (subst (λ j. BlockApart size block (size * j) used) count b) all in
        let start : block + size * 0 ≡ block = grind arith in
        let cut' : AllApart size (link_atoms size block (suc n) ++ used) =
          subst (λ p. AllApart size (link_atoms size p (suc n) ++ used)) start cut in
        subst (λ (r : Fastalloc × ℕ). Sound size n r.0 (r.1 ∷ used))
          (sym (new_atom-refilled x block n e s.elements_kept))
          (record {
            size_kept = s.size_kept;
            elements_kept = s.elements_kept;
            holds_link = s.holds_link;
            apart =
                subst (λ z. AllApart size (link_atoms z (block + z) n ++ (block ∷ used)))
                  (sym s.size_kept)
                  (AllApart-middle size block (link_atoms size (block + size) n) used cut'.0
                    cut'.1);
          })
    by_list (a ∷ rest) e all =
        subst (λ (r : Fastalloc × ℕ). Sound size n r.0 (r.1 ∷ used))
          (sym (new_atom-first x block a rest e))
          (record {
            size_kept = s.size_kept;
            elements_kept = s.elements_kept;
            holds_link = s.holds_link;
            apart = AllApart-middle size a rest used all.0 all.1;
          })

save_atom-Sound :
    (size n : ℕ) (x : Fastalloc) (before after : List ℕ) (atom : ℕ)
    → Sound size n x (before ++ (atom ∷ after))
    → Sound size n (save_atom x atom) (before ++ after)
unfolding save_atom
save_atom-Sound size n x before after atom s = record {
  size_kept = s.size_kept;
  elements_kept = s.elements_kept;
  holds_link = s.holds_link;
  apart =
      subst (λ l. ApartFromAll size atom l × AllApart size l)
        (sym (regroup x.freelist before after))
        (AllApart-front size atom (x.freelist ++ before) after
          (subst (AllApart size) (regroup x.freelist before (atom ∷ after)) s.apart));
}

-- A block that does not wrap holds its atoms.
block_bytes-Sound :
    (size n : ℕ) (x : Fastalloc) (used : List ℕ)
    → size * suc n < 2 ^ 31
    → Sound size n x used
    → block_bytes x ≡ size * suc n
block_bytes-Sound size n x used fits s =
    let turn : suc n * size ≡ size * suc n = grind arith in
    rw (s.elements_kept, s.size_kept) (omega (arith, turn, fits))

-- After any calls no two atoms overlap, of those in use and those that are free, and each has room for the
-- link of the free list: an atom that is handed out shares no byte with any that is still in use, and
-- no link is written over one. The bytes of a block, the number of its atoms times their size, fit an
-- `int`, and what `malloc` gives for them overlaps no atom in use.
pub Reach-Sound :
    (size n : ℕ) {x : Fastalloc} {used : List ℕ}
    → size * suc n < 2 ^ 31
    → Reach size n x used
    → Sound size n x used
unfolding fastalloc_new
Reach-Sound size n fits (opened request e) = record {
  size_kept = e;
  elements_kept = refl;
  holds_link = ground arith;
  apart = tt;
}
Reach-Sound size n fits (taken {x} {used} r block b) =
    let s = Reach-Sound size n fits r in
    new_atom-Sound size n x used block s
      (subst (λ bytes. BlockApart size block bytes used) (block_bytes-Sound size n x used fits s) b)
Reach-Sound size n fits (saved {x} before after atom r) =
    save_atom-Sound size n x before after atom (Reach-Sound size n fits r)
