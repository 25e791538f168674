-- ===== src/LinkedList/Search.antt =====
-- Looking through a list: by index, for an item, and to remove one.
use mathlib.Core.Path.{subst}
use mathlib.Core.List.{append-nil}
use pdp.Base.{
  ℕ, zero, suc, ◌-◌, ◌<◌, ◌≡◌, ◌≢◌, refl, ap, ◌∙◌, sym, arith, Bool, true, false, ◌||◌, Option,
  none, some, [], ◌∷◌, ◌++◌, ◌==◌, if◌then◌else◌, length, length-append, get_elem?, Outcome, ok,
  fault, eq→==, ne→==, ==→eq, Option-cases, Bool-cases, inl, inr,
}
use pdp.LinkedList.{Item, Atom, LinkedList, Heap, write, load, same_item}
use pdp.LinkedList.Operations.{index_from, index, contains_from, contains, remove_from, remove}
use pdp.LinkedList.Segment.{
  Cells, at, items, Apart, Segment, here, linked, last_of, IsList, write_ne, at-append, at_ne,
  at_tail, Segment-write, Segment-append, Segment-agree, Apart-sym, Segment-relink,
}
use pdp.LinkedList.Ends.{Gives, last_of-none, last_of-append}

-- What `pdp_list_index` gives: the item, or a read through NULL.
abbrev pub item_at : Cells → ℕ → Outcome Item
item_at xs i = elim (get_elem? (items xs) i) [ none ↦ fault | some item ↦ ok item ]

load-some : (h : Heap) (p : ℕ) {a : Atom} → h p ≡ some a → load h (some p) ≡ ok a
unfolding load
load-some h p e = rw (e, load) refl

load_null : (h : Heap) → load h none ≡ fault
unfolding load
load_null h = refl

index_from-item_at :
    (h : Heap) {start : Option ℕ} {xs : Cells} (i : ℕ)
    → Segment h none start xs
    → index_from h start i ≡ item_at xs i
unfolding index_from
index_from-item_at h zero here = rw (load_null h, index_from) refl
index_from-item_at h (suc i) here = rw (load_null h, index_from) refl
index_from-item_at h zero (linked e new s) = rw (load-some h _ e, index_from) refl
index_from-item_at h (suc i) (linked e new s) =
    rw (load-some h _ e, index_from) (index_from-item_at h i s)

-- `pdp_list_index` gives the item at the index, and faults past the end.
pub index-item_at :
    (h : Heap) (l : LinkedList) (i : ℕ) {xs : Cells} → IsList h l xs → index h l i ≡ item_at xs i
unfolding index
index-item_at h l i is = index_from-item_at h i is.chain

-- Some cell has an item that counts as the same.
abbrev pub has_item : Cells → Item → Bool
has_item [] item = false
has_item ((p, i) ∷ xs) item = if same_item i item then true else has_item xs item

contains_from-has_item :
    (n : ℕ) (h : Heap) (item : Item) {start : Option ℕ} {xs : Cells}
    → Segment h none start xs
    → length xs < n
    → contains_from n h start item ≡ ok (has_item xs item)
unfolding contains_from
contains_from-has_item zero h item s fuel = absurd (omega arith)
contains_from-has_item (suc n) h item here fuel = refl
contains_from-has_item (suc n) h item (linked {i} e new s) fuel =
    elim (Bool-cases (same_item i item)) [
      | inl hit ↦ rw (e, contains_from) (rw hit refl)
      | inr miss ↦ rw (e, contains_from) (rw miss (contains_from-has_item n h item s (omega arith)))
    ]

-- `pdp_list_contains` ends and finds an item exactly where the list has one of its type with the same
-- lower 32 bits.
pub contains-has_item :
    (h : Heap) (l : LinkedList) (item : Item) {xs : Cells}
    → IsList h l xs
    → contains h l item ≡ ok (has_item xs item)
unfolding contains
contains-has_item h l item is =
    contains_from-has_item (suc l.elements) h item is.chain (omega (arith, is.count))

-- The cells without the first one that has the item.
abbrev pub without : Cells → Item → Cells
without [] item = []
without ((p, i) ∷ xs) item = if same_item i item then xs else (p, i) ∷ without xs item

last_at : (x : ℕ × Item) (xs : Cells) {e : ℕ} → last_of (x ∷ xs) ≡ some e → at (x ∷ xs) e ≡ true
last_at (p, i) [] end = ground arith
last_at (p, i) (x ∷ xs) end = ground (arith, last_at x xs end)

-- The last pointer after the cell at `p` has gone.
abbrev pub repaired : Option ℕ → ℕ → Option ℕ → Option ℕ
repaired last p prev = elim last [ none ↦ none | some e ↦ if e == p then prev else some e ]

last_of_append :
    (xs : Cells) (y : ℕ × Item) (ys : Cells) → last_of (xs ++ (y ∷ ys)) ≡ last_of (y ∷ ys)
last_of_append [] y ys = refl
last_of_append (x ∷ []) y ys = refl
last_of_append (x ∷ x' ∷ xs) y ys = last_of_append (x' ∷ xs) y ys

repaired_lem :
    (before : Cells) (p : ℕ) (i : Item) (xs : Cells)
    → at xs p ≡ false
    → repaired (last_of (before ++ ((p, i) ∷ xs))) p (last_of before) ≡ last_of (before ++ xs)
repaired_lem before p i [] new =
    rw (last_of_append before (p, i) []) (rw (eq→== p p refl) (rw append-nil refl))
repaired_lem before p i (y ∷ ys) new =
    rw (last_of_append before (p, i) (y ∷ ys)) (split (last_of (y ∷ ys)) refl)
  where
    split :
        (o : Option ℕ)
        → last_of (y ∷ ys) ≡ o
        → repaired o p (last_of before) ≡ last_of (before ++ (y ∷ ys))
    split none e = absurd (cc (last_of-none (y ∷ ys) e))
    split (some e) eq =
        rw (ne→== e p (λ same. cc (last_at y ys eq, ap (at (y ∷ ys)) same)))
          (sym eq ∙ sym (last_of_append before y ys))

remove_cells-at :
    (before : Cells) (p : ℕ) (i : Item) (xs : Cells) (a : ℕ)
    → at (before ++ ((p, i) ∷ xs)) a ≡ false
    → (at before a ≡ false) × (a ≢ p) × (at xs a ≡ false)
remove_cells-at before p i xs a out =
    let split : (at before a || ((p == a) || at xs a)) ≡ false =
      sym (at-append before ((p, i) ∷ xs) a) ∙ out in
    (ground arith, ground arith, ground arith)

-- The item found at the head of the list.
remove_first :
    (n : ℕ) (h : Heap) (l : LinkedList) (p : ℕ) (i item : Item) (q : Option ℕ) (xs : Cells)
    → h p ≡ some (record { next = q; item = i })
    → same_item i item ≡ true
    → at xs p ≡ false
    → Segment h none q xs
    → l.elements ≡ suc (length xs)
    → l.last ≡ last_of ((p, i) ∷ xs)
    → Gives h (remove_from (suc n) h l none (some p) item) xs ((p, i) ∷ xs)
unfolding remove_from
remove_first n h l p i item q xs got hit new rest count end = (
  write h p none,
  record { elements = l.elements - 1; first = q; last = repaired l.last p none },
  rw (got, remove_from) (rw hit refl),
  record {
    chain = Segment-write p none rest new;
    count = omega arith;
    end = ap (λ o. repaired o p none) end ∙ repaired_lem [] p i xs new;
  },
  λ a out. write_ne h p a none (at_ne xs p a i out),
)

-- The item found behind the cells `before`, the last of which is `b`.
remove_behind :
    (n : ℕ) (h : Heap) (l : LinkedList) (before : Cells) (b p : ℕ) (i item : Item) (q : Option ℕ)
    (xs : Cells)
    → Segment h (some p) l.first before
    → last_of before ≡ some b
    → Apart before ((p, i) ∷ xs)
    → h p ≡ some (record { next = q; item = i })
    → same_item i item ≡ true
    → at xs p ≡ false
    → Segment h none q xs
    → l.elements ≡ length (before ++ ((p, i) ∷ xs))
    → l.last ≡ last_of (before ++ ((p, i) ∷ xs))
    → Gives h
        (remove_from (suc n) h l (some b) (some p) item)
        (before ++ xs)
        (before ++ ((p, i) ∷ xs))
unfolding remove_from
remove_behind n h l before b p i item q xs front ends apart got hit new rest count end =
    let (h', done, chain, others) = Segment-relink b q front ends in
    let outside : at before p ≡ false = Apart-sym before ((p, i) ∷ xs) apart p (ground arith) in
    let disjoint : Apart before xs = λ a inside. at_tail xs p a i (apart a inside) in
    let kept = Segment-agree rest λ a inside. others a (Apart-sym before xs disjoint a inside) in
    (
      write h' p none,
      record l { elements = l.elements - 1; last = repaired l.last p (some b) },
      rw (got, remove_from) (rw hit (rw done refl)),
      record {
        chain =
            Segment-append (Segment-write p none chain outside) (Segment-write p none kept new)
              disjoint;
        count = omega (arith, length-append before ((p, i) ∷ xs), length-append before xs);
        end =
            ap (λ o. repaired o p (some b)) end
            ∙ ap (repaired (last_of (before ++ ((p, i) ∷ xs))) p) (sym ends)
            ∙ repaired_lem before p i xs new;
      },
      λ a out.
          let (out₁, ne, out₂) = remove_cells-at before p i xs a out in
          write_ne h' p a none ne ∙ others a out₁,
    )

-- One turn that goes on.
remove_turn :
    (n : ℕ) (h : Heap) (l : LinkedList) (prev : Option ℕ) (p : ℕ) (i item : Item) (q : Option ℕ)
    → h p ≡ some (record { next = q; item = i })
    → same_item i item ≡ false
    → remove_from (suc n) h l prev (some p) item ≡ remove_from n h l (some p) q item
unfolding remove_from
remove_turn n h l prev p i item q got miss = rw (got, remove_from) (rw miss refl)

snoc-append : (xs : Cells) (y : ℕ × Item) (ys : Cells) → (xs ++ (y ∷ [])) ++ ys ≡ xs ++ (y ∷ ys)
snoc-append [] y ys = refl
snoc-append (x ∷ xs) y ys = ap (λ l. x ∷ l) (snoc-append xs y ys)

without-hit :
    (p : ℕ) (i item : Item) (xs : Cells) → same_item i item ≡ true → without ((p, i) ∷ xs) item ≡ xs
without-hit p i item xs hit = rw hit refl

without-miss :
    (p : ℕ) (i item : Item) (xs : Cells)
    → same_item i item ≡ false
    → without ((p, i) ∷ xs) item ≡ (p, i) ∷ without xs item
without-miss p i item xs miss = rw miss refl

remove_hit :
    (n : ℕ) (h : Heap) (l : LinkedList) (before : Cells) (p : ℕ) (i item : Item) (q : Option ℕ)
    (xs : Cells)
    → Segment h (some p) l.first before
    → Apart before ((p, i) ∷ xs)
    → h p ≡ some (record { next = q; item = i })
    → same_item i item ≡ true
    → at xs p ≡ false
    → Segment h none q xs
    → l.elements ≡ length (before ++ ((p, i) ∷ xs))
    → l.last ≡ last_of (before ++ ((p, i) ∷ xs))
    → Gives h
        (remove_from (suc n) h l (last_of before) (some p) item)
        (before ++ xs)
        (before ++ ((p, i) ∷ xs))
remove_hit n h l [] p i item q xs front apart got hit new rest count end =
    remove_first n h l p i item q xs got hit new rest count end
remove_hit n h l (x ∷ before) p i item q xs front apart got hit new rest count end =
    elim (Option-cases (last_of (x ∷ before))) [
      | inl nothing ↦ absurd (cc (last_of-none (x ∷ before) nothing))
      | inr (b, ends) ↦
          subst
            (λ o.
              Gives h (remove_from (suc n) h l o (some p) item) ((x ∷ before) ++ xs)
                ((x ∷ before) ++ ((p, i) ∷ xs)))
            (sym ends)
            (remove_behind n h l (x ∷ before) b p i item q xs front ends apart got hit new rest
              count end)
    ]

remove_from-Gives :
    (n : ℕ) (h : Heap) (l : LinkedList) (item : Item) (before : Cells) {start : Option ℕ}
    {xs : Cells}
    → Segment h start l.first before
    → Segment h none start xs
    → Apart before xs
    → l.elements ≡ length (before ++ xs)
    → l.last ≡ last_of (before ++ xs)
    → length xs < n
    → Gives h
        (remove_from n h l (last_of before) start item)
        (before ++ without xs item)
        (before ++ xs)
unfolding remove_from
remove_from-Gives zero h l item before front s apart count end fuel = absurd (omega arith)
remove_from-Gives (suc n) h l item before front here apart count end fuel =
    (h, l, refl, record { chain = rw append-nil front; count = count; end = end }, λ a out. refl)
remove_from-Gives (suc n) h l item before front (linked {p} {q} {i} {xs} got new rest) apart count
      end fuel =
    elim (Bool-cases (same_item i item)) [
      | inl hit ↦
          subst
            (λ ys.
              Gives h (remove_from (suc n) h l (last_of before) (some p) item) (before ++ ys)
                (before ++ ((p, i) ∷ xs)))
            (sym (without-hit p i item xs hit))
            (remove_hit n h l before p i item q xs front apart got hit new rest count end)
      | inr miss ↦
          let longer =
            Segment-append front (linked got refl here)
              λ a inside. ground (arith, apart a inside) in
          let disjoint : Apart (before ++ ((p, i) ∷ [])) xs =
            λ a inside. split a (apart a) inside in
          let (h', l', done, list, others) =
            remove_from-Gives n h l item (before ++ ((p, i) ∷ [])) longer rest disjoint
              (count ∙ ap length (sym (snoc-append before (p, i) xs)))
              (end ∙ ap last_of (sym (snoc-append before (p, i) xs))) (omega arith) in
          (
            h',
            l',
            remove_turn n h l (last_of before) p i item q got miss
                ∙ ap (λ o. remove_from n h l o q item) (sym (last_of-append before p i))
                ∙ done,
            subst (IsList h' l')
                (snoc-append before (p, i) (without xs item)
                  ∙ ap (λ ys. before ++ ys) (sym (without-miss p i item xs miss)))
                list,
            λ a out. others a (ap (λ ys. at ys a) (snoc-append before (p, i) xs) ∙ out),
          )
    ]
  where
    split :
        (a : ℕ)
        → (at before a ≡ true → at ((p, i) ∷ xs) a ≡ false)
        → at (before ++ ((p, i) ∷ [])) a ≡ true
        → at xs a ≡ false
    split a apart' inside = elim (Bool-cases (at before a)) [
      | inl b ↦ at_tail xs p a i (apart' b)
      | inr outside ↦
          let both : (at before a || ((p == a) || false)) ≡ true =
            sym (at-append before ((p, i) ∷ []) a) ∙ inside in
          let same : p ≡ a = ==→eq p a (ground arith) in ap (at xs) (sym same) ∙ new
    ]

-- `pdp_list_remove` ends, takes out the first item that counts as the same, if there is one, with the
-- pointers to both ends repaired, and writes to the list's own atoms only.
pub remove-Gives :
    (h : Heap) (l : LinkedList) (item : Item) {xs : Cells}
    → IsList h l xs
    → Gives h (remove h l item) (without xs item) xs
unfolding remove
remove-Gives h l item is =
    remove_from-Gives (suc l.elements) h l item [] here is.chain (λ a inside. absurd (cc)) is.count
      is.end (omega (arith, is.count))
