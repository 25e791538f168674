-- ===== src/LinkedList/Ends.antt =====
-- Both ends of a list: what is put in front, put behind and taken off.
use native.Mathlib.Decide.{ℕ_discrete}
use mathlib.Core.Path.{subst}
use pdp.Base.{
  ℕ, suc, ◌-◌, ◌≡◌, ◌≢◌, refl, ap, ◌∙◌, sym, arith, false, Option, none, some, [], ◌∷◌, ◌++◌,
  length, length-append, Outcome, ok, fault, ne→==,
}
use pdp.LinkedList.{Item, Atom, LinkedList, Heap, write, set_next}
use pdp.LinkedList.Operations.{add_atom, fill, add, add_back_atom, add_back, pop_atom, pop}
use pdp.LinkedList.Segment.{
  Cells, at, Apart, Segment, here, linked, last_of, IsList, write_self, write_ne, at-append, at_ne,
  set_next-write, Segment-write, at-unused, Segment-append, Segment-relink,
}

-- An operation that gives a list of the cells `xs` and writes to no address but those of `ys`.
abbrev pub Gives : Heap → Outcome (Heap × LinkedList) → Cells → Cells → Type 0
Gives h o xs ys =
    (h' : Heap) × (l' : LinkedList) × (o ≡ ok (h', l'))
    × IsList h' l' xs
    × ((a : ℕ) → at ys a ≡ false → h' a ≡ h a)

last_of-cons :
    (p : ℕ) (i : Item) (xs : Cells)
    → last_of ((p, i) ∷ xs)
      ≡ elim (last_of xs) as (λ o. Option ℕ) [ none ↦ some p | some e ↦ some e ]
last_of-cons p i [] = refl
last_of-cons p i (x ∷ []) = refl
last_of-cons p i (x ∷ y ∷ xs) = last_of-cons p i (y ∷ xs)

-- `pdp_list_add_atom` puts an atom that is in no list before the others.
pub add_atom-Gives :
    (h : Heap) (l : LinkedList) (p : ℕ) (q : Option ℕ) (i : Item) {xs : Cells}
    → IsList h l xs
    → h p ≡ some (record { next = q; item = i })
    → at xs p ≡ false
    → Gives h (add_atom h l p) ((p, i) ∷ xs) ((p, i) ∷ [])
unfolding add_atom
add_atom-Gives h l p q i {xs} is got out =
    let atom : Option Atom = some (record { next = l.first; item = i }) in
    (
      write h p atom,
      record {
        elements = suc l.elements;
        first = some p;
        last = elim l.last [ none ↦ some p | some e ↦ some e ];
      },
      rw (set_next-write h p q l.first i got, add_atom) refl,
      record {
        chain = linked (write_self h p atom) out (Segment-write p atom is.chain out);
        count = ap suc is.count;
        end =
            ap (λ o. elim o as (λ x. Option ℕ) [ none ↦ some p | some e ↦ some e ]) is.end
            ∙ sym (last_of-cons p i xs);
      },
      λ a outside. write_ne h p a atom (at_ne [] p a i outside),
    )

fill-IsList :
    (h : Heap) (l : LinkedList) (p : ℕ) (i : Item) {xs : Cells}
    → IsList h l xs
    → h p ≡ none
    → IsList (fill h p i) l xs
fill-IsList h l p i is unused = record {
  chain =
      Segment-write p (some (record { next = none; item = i })) is.chain
        (at-unused p is.chain unused);
  count = is.count;
  end = is.end;
}

-- `pdp_list_add` with an unused atom puts the item before the others and writes only to that atom.
pub add-Gives :
    (h : Heap) (l : LinkedList) (p : ℕ) (i : Item) {xs : Cells}
    → IsList h l xs
    → h p ≡ none
    → Gives h (add h l p i) ((p, i) ∷ xs) ((p, i) ∷ [])
unfolding add
add-Gives h l p i is unused =
    let atom : Option Atom = some (record { next = none; item = i }) in
    let (h', l', done, list, others) =
      add_atom-Gives (fill h p i) l p none i (fill-IsList h l p i is unused) (write_self h p atom)
        (at-unused p is.chain unused) in
    (h', l', done, list, λ a out. others a out ∙ write_ne h p a atom (at_ne [] p a i out))

pub last_of-append : (xs : Cells) (p : ℕ) (i : Item) → last_of (xs ++ ((p, i) ∷ [])) ≡ some p
last_of-append [] p i = refl
last_of-append (x ∷ []) p i = refl
last_of-append (x ∷ y ∷ xs) p i = last_of-append (y ∷ xs) p i

pub last_of-none : (xs : Cells) → last_of xs ≡ none → xs ≡ []
last_of-none [] e = refl
last_of-none ((p, i) ∷ []) e = absurd (cc)
last_of-none (x ∷ y ∷ xs) e = absurd (cc (last_of-none (y ∷ xs) e))

Apart-single : (xs : Cells) (p : ℕ) (i : Item) → at xs p ≡ false → Apart xs ((p, i) ∷ [])
Apart-single xs p i out a inside = elim (ℕ_discrete p a) [
  | yes same ↦ absurd (cc (ap (at xs) same, out, inside))
  | no other ↦ rw (ne→== p a other) refl
]

length-snoc : (xs : Cells) (x : ℕ × Item) → length (xs ++ (x ∷ [])) ≡ suc (length xs)
length-snoc xs x = omega (arith, length-append xs (x ∷ []))

-- The way through `pdp_list_add_back_atom` where there is a last atom.
linked_behind :
    (l : LinkedList) (cut h' : Heap) (p e : ℕ)
    → l.last ≡ some e
    → set_next cut (some e) (some p) ≡ ok h'
    → elim l.last as (λ o. Outcome (Heap × LinkedList)) [
      | none ↦ ok (cut, record { elements = suc l.elements; first = some p; last = some p })
      | some b ↦ elim (set_next cut (some b) (some p)) [
        | fault ↦ fault
        | ok linked' ↦ ok (linked', record l { elements = suc l.elements; last = some p })
      ]
    ]
      ≡ ok (h', record l { elements = suc l.elements; last = some p })
linked_behind l cut h' p e eq done = rw eq (rw done refl)

-- `pdp_list_add_back_atom` puts an atom that is in no list behind the others.
pub add_back_atom-Gives :
    (h : Heap) (l : LinkedList) (p : ℕ) (q : Option ℕ) (i : Item) {xs : Cells}
    → IsList h l xs
    → h p ≡ some (record { next = q; item = i })
    → at xs p ≡ false
    → Gives h (add_back_atom h l p) (xs ++ ((p, i) ∷ [])) (xs ++ ((p, i) ∷ []))
unfolding add_back_atom
add_back_atom-Gives h l p q i {xs} is got out = behind l.last refl
  where
    atom : Option Atom
    atom = some (record { next = none; item = i })

    cut : Heap
    cut = write h p atom

    cuts : set_next h (some p) none ≡ ok cut
    cuts = set_next-write h p q none i got

    chain : Segment cut none l.first xs
    chain = Segment-write p atom is.chain out

    alone : (a : ℕ) → at (xs ++ ((p, i) ∷ [])) a ≡ false → cut a ≡ h a
    alone a outside = write_ne h p a atom (λ same. ground (arith, at-append xs ((p, i) ∷ []) a))

    elsewhere : (a : ℕ) → at (xs ++ ((p, i) ∷ [])) a ≡ false → at xs a ≡ false
    elsewhere a outside = ground (arith, at-append xs ((p, i) ∷ []) a)

    behind :
        (o : Option ℕ)
        → l.last ≡ o
        → Gives h (add_back_atom h l p) (xs ++ ((p, i) ∷ [])) (xs ++ ((p, i) ∷ []))
    behind none e =
        let empty : xs ≡ [] = last_of-none xs (sym is.end ∙ e) in
        (
          cut,
          record { elements = suc l.elements; first = some p; last = some p },
          rw (cuts, add_back_atom) (rw e refl),
          subst
              (λ ys.
                IsList cut (record { elements = suc l.elements; first = some p; last = some p })
                  (ys ++ ((p, i) ∷ [])))
              (sym empty)
              (record {
                chain = linked (write_self h p atom) refl here;
                count = ap suc (is.count ∙ ap length empty);
                end = refl;
              }),
          alone,
        )
    behind (some e) eq =
        let (h', done, chain', others) = Segment-relink e (some p) chain (sym is.end ∙ eq) in
        (
          h',
          record l { elements = suc l.elements; last = some p },
          rw (cuts, add_back_atom) (linked_behind l cut h' p e eq done),
          record {
            chain =
                Segment-append chain' (linked (others p out ∙ write_self h p atom) refl here)
                  (Apart-single xs p i out);
            count = ap suc is.count ∙ sym (length-snoc xs (p, i));
            end = sym (last_of-append xs p i);
          },
          λ a outside. others a (elsewhere a outside) ∙ alone a outside,
        )

-- `pdp_list_add_back` with an unused atom puts the item behind the others and writes only to the list's
-- own atoms and the new one.
pub add_back-Gives :
    (h : Heap) (l : LinkedList) (p : ℕ) (i : Item) {xs : Cells}
    → IsList h l xs
    → h p ≡ none
    → Gives h (add_back h l p i) (xs ++ ((p, i) ∷ [])) (xs ++ ((p, i) ∷ []))
unfolding add_back
add_back-Gives h l p i {xs} is unused =
    let atom : Option Atom = some (record { next = none; item = i }) in
    let (h', l', done, list, others) =
      add_back_atom-Gives (fill h p i) l p none i (fill-IsList h l p i is unused)
        (write_self h p atom) (at-unused p is.chain unused) in
    (
      h',
      l',
      done,
      list,
      λ a out.
          others a out ∙ write_ne h p a atom (λ same. ground (arith, at-append xs ((p, i) ∷ []) a)),
    )

-- What `pdp_list_pop` does to a list that starts with the given cell.
abbrev pub Pops : Heap → Outcome (Heap × LinkedList × Item) → ℕ → Item → Cells → Type 0
Pops h o p i xs =
    (h' : Heap) × (l' : LinkedList) × (o ≡ ok (h', l', i))
    × IsList h' l' xs
    × (h' p ≡ none)
    × ((a : ℕ) → a ≢ p → h' a ≡ h a)

pub next_last :
    {h : Heap} {q : Option ℕ} {xs : Cells} (p : ℕ) (i : Item) (o : Option ℕ)
    → Segment h none q xs
    → o ≡ last_of ((p, i) ∷ xs)
    → elim q as (λ x. Option ℕ) [ none ↦ none | some r ↦ o ] ≡ last_of xs
next_last p i o here e = refl
next_last p i o (linked got new s) e = e

pub pop_atom-first :
    (h : Heap) (l : LinkedList) (p : ℕ) (q : Option ℕ) (i : Item)
    → l.first ≡ some p
    → h p ≡ some (record { next = q; item = i })
    → pop_atom h l
      ≡ ok (
        write h p (some (record { next = none; item = i })),
        record {
          elements = l.elements - 1;
          first = q;
          last = elim q as (λ x. Option ℕ) [ none ↦ none | some r ↦ l.last ];
        },
        some p,
      )
unfolding pop_atom
pop_atom-first h l p q i e got = rw (e, pop_atom) (rw got refl)

pub first_cell :
    {h : Heap} {stop start : Option ℕ} {p : ℕ} {i : Item} {xs : Cells}
    → Segment h stop start ((p, i) ∷ xs)
    → (q : Option ℕ) × (start ≡ some p)
      × (h p ≡ some (record { next = q; item = i }))
      × (at xs p ≡ false)
      × Segment h stop q xs
first_cell (linked {q} e new s) = (q, refl, e, new, s)

-- `pdp_list_pop` of a list that is not empty gives its first item, frees that atom, leaves a list of the
-- rest and writes to no other atom.
pub pop-Pops :
    (h : Heap) (l : LinkedList) (p : ℕ) (i : Item) {xs : Cells}
    → IsList h l ((p, i) ∷ xs)
    → Pops h (pop h l) p i xs
unfolding pop
pop-Pops h l p i {xs} is =
    let (q, starts, got, new, rest) = first_cell is.chain in
    let cut : Option Atom = some (record { next = none; item = i }) in
    let h₁ = write h p cut in
    (
      write h₁ p none,
      record {
        elements = l.elements - 1;
        first = q;
        last = elim q as (λ x. Option ℕ) [ none ↦ none | some r ↦ l.last ];
      },
      rw (pop_atom-first h l p q i starts got, pop) (rw (write_self h p cut) refl),
      record {
        chain = Segment-write p none (Segment-write p cut rest new) new;
        count = omega (arith, is.count);
        end = next_last p i l.last rest is.end;
      },
      write_self h₁ p none,
      λ a ne. write_ne h₁ p a none ne ∙ write_ne h p a cut ne,
    )
