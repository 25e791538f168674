-- ===== src/LinkedList/Splice.antt =====
-- Whole lists: one behind another, one turned round, one cleared, and an atom that moves.
use native.Mathlib.Decide.{ℕ_discrete}
use mathlib.Core.Path.{subst}
use mathlib.Core.List.{append-nil}
use pdp.Base.{
  ℕ, zero, suc, ◌+◌, ◌-◌, ◌<◌, ◌≡◌, ◌≢◌, refl, ap, ◌∙◌, sym, arith, true, false, Option, none, some,
  [], ◌∷◌, ◌++◌, ◌==◌, if◌then◌else◌, length, length-append, Outcome, ok, eq→==, ne→==,
  Option-cases, inl, inr,
}
use pdp.LinkedList.{Item, Atom, LinkedList, Heap, write}
use pdp.LinkedList.Operations.{
  empty_list, add_atom, pop_atom, pop_push, join, reverse_loop, reverse, clear_from, clear,
}
use pdp.LinkedList.Segment.{
  Cells, at, Apart, Segment, here, linked, last_of, IsList, write_self, write_ne, at_ne, at_tail,
  Segment-write, Segment-agree, Apart-sym, Segment-append, Segment-relink,
}
use pdp.LinkedList.Ends.{Gives, add_atom-Gives, pop_atom-first, first_cell, next_last, last_of-none}

last_of-append_cons :
    (xs : Cells) (y : ℕ × Item) (ys : Cells) → last_of (xs ++ (y ∷ ys)) ≡ last_of (y ∷ ys)
last_of-append_cons [] y ys = refl
last_of-append_cons (x ∷ []) y ys = refl
last_of-append_cons (x ∷ x' ∷ xs) y ys = last_of-append_cons (x' ∷ xs) y ys

last_of-append_some : (xs ys : Cells) → last_of ys ≢ none → last_of (xs ++ ys) ≡ last_of ys
last_of-append_some xs [] some_last = absurd (some_last refl)
last_of-append_some xs (y ∷ ys) some_last = last_of-append_cons xs y ys

-- A list that is empty keeps its place in front of another one.
join_front :
    (h : Heap) (l tail : LinkedList) {ys : Cells}
    → IsList h tail ys
    → l.elements ≡ 0
    → IsList h
        (record { elements = l.elements + tail.elements; first = tail.first; last = tail.last })
        ys
join_front h l tail is e = record {
  chain = is.chain;
  count = omega (arith, is.count);
  end = is.end;
}

-- The way through `pdp_list_join` for a list that has a last atom.
join_linked :
    (h : Heap) (l tail : LinkedList) (e : ℕ) {xs ys : Cells}
    → (tail.elements == 0) ≡ false
    → last_of ys ≢ none
    → l.last ≡ some e
    → IsList h l xs
    → IsList h tail ys
    → Apart xs ys
    → Gives h (join h l tail) (xs ++ ys) xs
unfolding join
join_linked h l tail e {xs} {ys} some_tail some_last eq is behind apart =
    let (h', done, chain, others) = Segment-relink e tail.first is.chain (sym is.end ∙ eq) in
    (
      h',
      record { elements = l.elements + tail.elements; first = l.first; last = tail.last },
      rw (some_tail, join) (rw eq (rw done refl)),
      record {
        chain =
            Segment-append chain
              (Segment-agree behind.chain λ a inside. others a (Apart-sym xs ys apart a inside))
              apart;
        count = omega (arith, is.count, behind.count, length-append xs ys);
        end = behind.end ∙ sym (last_of-append_some xs ys some_last);
      },
      others,
    )

join_unlinked :
    (h : Heap) (l tail : LinkedList) {xs ys : Cells}
    → (tail.elements == 0) ≡ false
    → l.last ≡ none
    → IsList h l xs
    → IsList h tail ys
    → Gives h (join h l tail) (xs ++ ys) xs
unfolding join
join_unlinked h l tail {xs} {ys} some_tail eq is behind =
    let empty : xs ≡ [] = last_of-none xs (sym is.end ∙ eq) in
    let joined : LinkedList = record {
      elements = l.elements + tail.elements;
      first = tail.first;
      last = tail.last;
    } in
    (
      h,
      joined,
      rw (some_tail, join) (rw eq refl),
      subst (λ ws. IsList h joined (ws ++ ys)) (sym empty)
          (join_front h l tail behind (is.count ∙ ap length empty)),
      λ a out. refl,
    )

join_nothing :
    (h : Heap) (l tail : LinkedList) {xs : Cells}
    → IsList h l xs
    → tail.elements ≡ 0
    → Gives h (join h l tail) (xs ++ []) xs
unfolding join
join_nothing h l tail {xs} is e =
    (h, l, rw (eq→== tail.elements 0 e, join) refl, rw append-nil is, λ a out. refl)

-- `pdp_list_join` puts the atoms of one list behind those of another, where the two share none. It writes
-- to the first list's atoms only.
pub join-Gives :
    (h : Heap) (l tail : LinkedList) (xs ys : Cells)
    → IsList h l xs
    → IsList h tail ys
    → Apart xs ys
    → Gives h (join h l tail) (xs ++ ys) xs
join-Gives h l tail xs [] is behind apart = join_nothing h l tail is behind.count
join-Gives h l tail xs (y ∷ ys) is behind apart =
    let some_tail = ne→== tail.elements 0 (omega (arith, behind.count)) in
    elim (Option-cases l.last) [
      | inl eq ↦ join_unlinked h l tail some_tail eq is behind
      | inr (e, eq) ↦
          join_linked h l tail e some_tail (λ nothing. cc (last_of-none (y ∷ ys) nothing)) eq is
            behind apart
    ]

-- The cells of a list turned round, in front of others.
abbrev pub reverse_onto : Cells → Cells → Cells
reverse_onto [] ys = ys
reverse_onto (x ∷ xs) ys = reverse_onto xs (x ∷ ys)

pop_atom-none : (h : Heap) (l : LinkedList) → l.first ≡ none → pop_atom h l ≡ ok (h, l, none)
unfolding pop_atom
pop_atom-none h l e = ground arith

-- One turn moves the first atom over.
reverse_turn :
    (n : ℕ) (h h₁ h₂ : Heap) (tmp tmp' l l' : LinkedList) (p : ℕ)
    → pop_atom h tmp ≡ ok (h₁, tmp', some p)
    → add_atom h₁ l p ≡ ok (h₂, l')
    → reverse_loop (suc n) h tmp l ≡ reverse_loop n h₂ tmp' l'
unfolding reverse_loop
reverse_turn n h h₁ h₂ tmp tmp' l l' p popped added = rw (popped, reverse_loop) (rw added refl)

reverse_loop-Gives :
    (n : ℕ) (h : Heap) (tmp l : LinkedList) (xs ys : Cells)
    → IsList h tmp xs
    → IsList h l ys
    → Apart xs ys
    → length xs < n
    → Gives h (reverse_loop n h tmp l) (reverse_onto xs ys) xs
unfolding reverse_loop
reverse_loop-Gives zero h tmp l xs ys is done apart fuel = absurd (omega arith)
reverse_loop-Gives (suc n) h tmp l [] ys is done apart fuel =
    (h, l, rw (pop_atom-none h tmp (no_cell is.chain), reverse_loop) refl, done, λ a out. refl)
  where
    no_cell : {start : Option ℕ} → Segment h none start [] → start ≡ none
    no_cell here = refl
reverse_loop-Gives (suc n) h tmp l ((p, i) ∷ xs) ys is done apart fuel =
    let (q, starts, got, new, rest) = first_cell is.chain in
    let cut : Option Atom = some (record { next = none; item = i }) in
    let h₁ = write h p cut in
    let tmp' : LinkedList = record {
      elements = tmp.elements - 1;
      first = q;
      last = elim q as (λ x. Option ℕ) [ none ↦ none | some r ↦ tmp.last ];
    } in
    let out : at ys p ≡ false = apart p (ground arith) in
    let there : IsList h₁ l ys = record {
      chain = Segment-write p cut done.chain out;
      count = done.count;
      end = done.end;
    } in
    let (h₂, l', added, moved, others) =
      add_atom-Gives h₁ l p none i there (write_self h p cut) out in
    let left : IsList h₂ tmp' xs = record {
      chain =
          Segment-agree (Segment-write p cut rest new)
            λ a inside. others a (apart_from new a inside);
      count = omega (arith, is.count);
      end = next_last p i tmp.last rest is.end;
    } in
    let disjoint : Apart xs ((p, i) ∷ ys) =
      λ a inside. ground (arith, apart a, apart_from new a inside) in
    let (h₃, l'', finished, list, others') =
      reverse_loop-Gives n h₂ tmp' l' xs ((p, i) ∷ ys) left moved disjoint (omega arith) in
    (
      h₃,
      l'',
      reverse_turn n h h₁ h₂ tmp tmp' l l' p (pop_atom-first h tmp p q i starts got) added
          ∙ finished,
      list,
      λ a outside.
          others' a (at_tail xs p a i outside)
          ∙ others a (ground arith)
          ∙ write_ne h p a cut (at_ne xs p a i outside),
    )
  where
    apart_from : at xs p ≡ false → (a : ℕ) → at xs a ≡ true → at ((p, i) ∷ []) a ≡ false
    apart_from new a inside = elim (ℕ_discrete p a) [
      | yes same ↦ absurd (cc (ap (at xs) same))
      | no other ↦ rw (ne→== p a other) refl
    ]

-- `pdp_list_reverse` relinks a list's own atoms in the opposite order, ends, and writes to no other
-- atom.
pub reverse-Gives :
    (h : Heap) (l : LinkedList) (xs : Cells)
    → IsList h l xs
    → Gives h (reverse h l) (reverse_onto xs []) xs
unfolding reverse
reverse-Gives h l xs is =
    reverse_loop-Gives (suc l.elements) h l empty_list xs [] is
      (record { chain = here; count = refl; end = refl }) (λ a inside. refl)
      (omega (arith, is.count))

clear_from-ok :
    (n : ℕ) (h : Heap) {start : Option ℕ} {xs : Cells}
    → Segment h none start xs
    → length xs < n
    → (h' : Heap) × (clear_from n h start ≡ ok h')
      × ((a : ℕ) → at xs a ≡ true → h' a ≡ none)
      × ((a : ℕ) → at xs a ≡ false → h' a ≡ h a)
unfolding clear_from
clear_from-ok zero h s fuel = absurd (omega arith)
clear_from-ok (suc n) h here fuel = (h, refl, λ a inside. absurd (cc), λ a out. refl)
clear_from-ok (suc n) h (linked {p} {i} {xs} e new s) fuel =
    let (h', done, freed, others) =
      clear_from-ok n (write h p none) (Segment-write p none s new) (omega arith) in
    (
      h',
      rw (e, clear_from) done,
      λ a inside. elim (ℕ_discrete p a) [
        | yes same ↦ ap h' (sym same) ∙ others p new ∙ write_self h p none
        | no other ↦ freed a (ground arith)
      ],
      λ a out. others a (at_tail xs p a i out) ∙ write_ne h p a none (at_ne xs p a i out),
    )

-- What clearing a list of the given cells does.
abbrev pub Clears : Heap → Outcome (Heap × LinkedList) → Cells → Type 0
Clears h o xs =
    (h' : Heap) × (o ≡ ok (h', empty_list))
    × ((a : ℕ) → at xs a ≡ true → h' a ≡ none)
    × ((a : ℕ) → at xs a ≡ false → h' a ≡ h a)

-- `pdp_list_clear` frees each atom of the list once and no other, and leaves an empty header.
pub clear-Clears :
    (h : Heap) (l : LinkedList) (xs : Cells) → IsList h l xs → Clears h (clear h l) xs
unfolding clear
clear-Clears h l xs is =
    let (h', done, freed, others) =
      clear_from-ok (suc l.elements) h is.chain (omega (arith, is.count)) in
    (h', rw (done, clear) refl, freed, others)

middle_injective :
    (a a' : Heap) (b b' c c' : LinkedList)
    → ◌≡◌ {A = Outcome (Heap × LinkedList × LinkedList)} (ok (a, b, c)) (ok (a', b', c'))
    → b ≡ b'
middle_injective a a' b b' c c' e = ground arith

-- `pdp_list_pop_push` from a list of two or more atoms leaves the list without a last atom, though
-- it is not empty.
pub pop_push-last :
    (h : Heap) (source dest : LinkedList) (x y : ℕ × Item) (xs : Cells) {h' : Heap}
    {s d : LinkedList}
    → IsList h source (x ∷ y ∷ xs)
    → pop_push h source dest ≡ ok (h', s, d)
    → (s.last ≡ none) × (s.first ≢ none)
unfolding pop_push
pop_push-last h source dest (p, i) (p', i') xs {h'} {s} {d} is e =
    let (q, starts, got, new, rest) = first_cell is.chain in
    let (q', starts', got', new', rest') = first_cell rest in
    let left : LinkedList = record { elements = source.elements - 1; first = q; last = none } in
    let more : (source.elements - 1 == 0) ≡ false =
      ne→== (source.elements - 1) 0 (omega (arith, is.count)) in
    let pushed : LinkedList = record {
      elements = suc dest.elements;
      first = some p;
      last = if dest.elements == 0 then dest.last else some p;
    } in
    let moved = write h p (some (record { next = dest.first; item = i })) in
    let same : left ≡ s =
      middle_injective moved h' left s pushed d
        (sym (rw (starts, pop_push) (rw got (rw more refl))) ∙ e) in
    (
      ap (λ (l : LinkedList). l.last) (sym same),
      λ nothing. cc (ap (λ (l : LinkedList). l.first) same, starts', nothing),
    )
