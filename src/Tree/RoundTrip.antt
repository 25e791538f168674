-- ===== src/Tree/RoundTrip.antt =====
-- What was printed is read back.
use pdp.Base.{
  ℕ, zero, suc, ◌+◌, ◌*◌, ◌≤◌, ◌<◌, ◌≡◌, refl, ap, ◌∙◌, sym, arith, Bool, true, false, Option, none,
  some, List, [], ◌∷◌, ◌++◌, length, length-append,
}
use pdp.Tree.{
  Tree, int_atom, float_atom, symbol_atom, packet_atom, list_atom, other_atom, Trees, leaf, branch,
  Numerals, add_behind,
}
use pdp.Tree.Parser.{as_list_atom, close_list, atom_from, atom_at, atoms_from, tree_at, tree_from}
use pdp.Tree.Printer.{print_atom, print_items, print_tail, print_tree}
use pdp.Tree.Text.{
  IsToken, Starts, Stops, IsReadableAtom, IsReadable, gap, skip_whitespace_start,
  skip_whitespace-gap, atom-Starts, atom_at-pure,
}

-- The calls that reading takes.
mutual
  cost_atom : Tree → ℕ
  cost_atom (int_atom i) = 0
  cost_atom (float_atom f) = 0
  cost_atom (symbol_atom s) = 0
  cost_atom (packet_atom p) = 0
  cost_atom (list_atom ts) = cost ts
  cost_atom (other_atom t w) = 0

  cost : Trees → ℕ
  cost leaf = 1
  cost (branch t ts) = suc (suc (cost_atom t + cost ts))

abbrev pub append_trees : Trees → Trees → Trees
append_trees leaf us = us
append_trees (branch t ts) us = branch t (append_trees ts us)

append_trees-add_behind :
    (ts : Trees) (t : Tree) (us : Trees)
    → append_trees (add_behind ts t) us ≡ append_trees ts (branch t us)
append_trees-add_behind leaf t us = refl
append_trees-add_behind (branch u ts) t us = ap (branch u) (append_trees-add_behind ts t us)

append_trees-leaf : (ts : Trees) → append_trees ts leaf ≡ ts
append_trees-leaf leaf = refl
append_trees-leaf (branch t ts) = ap (branch t) (append_trees-leaf ts)

-- The text of atoms that stand behind another one, or that start a list.
abbrev pub lead : Bool → Numerals → Trees → List ℕ
lead true nums ts = print_tail nums ts
lead false nums ts = print_items nums ts

abbrev pub shut : List ℕ → List ℕ
shut rest = b')' ∷ rest

-- What each number of calls is enough for.
abbrev ReadsAtoms : ℕ → Numerals → Type 0
ReadsAtoms n nums =
    (b : Bool) (t : Tree) (rest : List ℕ)
    → IsReadableAtom nums t
    → suc (cost_atom t) ≤ n
    → Stops rest
    → atom_from n nums (gap b (print_atom nums t ++ rest)) ≡ (some t, rest)

abbrev ReadsLists : ℕ → Numerals → Type 0
ReadsLists n nums =
    (b : Bool) (ts us : Trees) (rest : List ℕ)
    → IsReadable nums us
    → cost us ≤ n
    → atoms_from n nums ts (lead b nums us ++ shut rest) ≡ (some (append_trees ts us), rest)

atom_from-suc :
    (n : ℕ) (nums : Numerals) (b : Bool) (s : List ℕ)
    → Starts s
    → atom_from (suc n) nums (gap b s) ≡ atom_at (λ cs. atoms_from n nums leaf cs) nums s
unfolding atom_from
atom_from-suc n nums b s st =
    ap (atom_at (λ cs. atoms_from n nums leaf cs) nums) (skip_whitespace-gap b s st)

snoc_list : (xs : List ℕ) (y : ℕ) (ys : List ℕ) → (xs ++ (y ∷ [])) ++ ys ≡ xs ++ (y ∷ ys)
snoc_list [] y ys = refl
snoc_list (x ∷ xs) y ys = ap (λ l. x ∷ l) (snoc_list xs y ys)

read_atom : (n : ℕ) (nums : Numerals) → ReadsLists n nums → ReadsAtoms (suc n) nums
unfolding print_atom IsReadableAtom cost_atom atom_at
read_atom n nums lists b t rest r enough stop =
    atom_from-suc n nums b (print_atom nums t ++ rest) (atom-Starts nums t rest r)
    ∙ by_kind t r enough
  where
    reader : List ℕ → Option Trees × List ℕ
    reader cs = atoms_from n nums leaf cs

    by_kind :
        (t : Tree)
        → IsReadableAtom nums t
        → suc (cost_atom t) ≤ suc n
        → atom_at reader nums (print_atom nums t ++ rest) ≡ (some t, rest)
    by_kind (int_atom i) r e = atom_at-pure reader nums (int_atom i) (nums.show_int i) rest r stop
    by_kind (float_atom f) r e =
        atom_at-pure reader nums (float_atom f) (nums.show_float f) rest r stop
    by_kind (symbol_atom s) r e = atom_at-pure reader nums (symbol_atom s) s rest r stop
    by_kind (packet_atom p) r e = absurd r
    by_kind (list_atom ts) r e = ap as_list_atom (
        ap (atoms_from n nums leaf) (snoc_list (print_items nums ts) b')' rest)
        ∙ lists false leaf ts rest r (omega arith))
    by_kind (other_atom t w) r e = absurd r

close_list-shut : (ts : Trees) (rest : List ℕ) → close_list ts (shut rest) ≡ (some ts, rest)
unfolding close_list
close_list-shut ts rest =
    rw (skip_whitespace_start (shut rest) (refl, λ e. omega (arith, e)), close_list) refl

-- The loop's turn, from what `pdp_atom_from_cstring` gives.
turn-some :
    (n : ℕ) (nums : Numerals) (ts : Trees) (s rest : List ℕ) (t : Tree)
    → atom_from n nums s ≡ (some t, rest)
    → atoms_from (suc n) nums ts s ≡ atoms_from n nums (add_behind ts t) rest
unfolding atoms_from
turn-some n nums ts s rest t e =
    ap
      (λ (f : Option Tree × List ℕ). elim f.0 as (λ o. Option Trees × List ℕ) [
        | none ↦ close_list ts f.1
        | some u ↦ atoms_from n nums (add_behind ts u) f.1
      ])
      e

turn-none :
    (n : ℕ) (nums : Numerals) (ts : Trees) (s rest : List ℕ)
    → atom_from n nums s ≡ (none, rest)
    → atoms_from (suc n) nums ts s ≡ close_list ts rest
unfolding atoms_from
turn-none n nums ts s rest e =
    ap
      (λ (f : Option Tree × List ℕ). elim f.0 as (λ o. Option Trees × List ℕ) [
        | none ↦ close_list ts f.1
        | some u ↦ atoms_from n nums (add_behind ts u) f.1
      ])
      e

atom_from-shut :
    (n : ℕ) (nums : Numerals) (rest : List ℕ) → atom_from n nums (shut rest) ≡ (none, shut rest)
unfolding atom_from atom_at
atom_from-shut zero nums rest = refl
atom_from-shut (suc n) nums rest =
    atom_from-suc n nums false (shut rest) (refl, λ e. omega (arith, e))

tail-Stops :
    (nums : Numerals) (us : Trees) (rest : List ℕ) → Stops (print_tail nums us ++ shut rest)
unfolding print_tail
tail-Stops nums leaf rest = refl
tail-Stops nums (branch t us) rest = refl

read_list :
    (n : ℕ) (nums : Numerals) → ReadsAtoms n nums → ReadsLists n nums → ReadsLists (suc n) nums
unfolding print_items cost IsReadable
read_list n nums atoms lists b ts leaf rest r enough =
    ap (λ s. atoms_from (suc n) nums ts (s ++ shut rest)) (empty_lead b)
    ∙ turn-none n nums ts (shut rest) (shut rest) (atom_from-shut n nums rest)
    ∙ close_list-shut ts rest
    ∙ ap (λ us. (some us, rest)) (sym (append_trees-leaf ts))
  where
    empty_lead : (b : Bool) → lead b nums leaf ≡ []
    empty_lead true = refl
    empty_lead false = refl
read_list n nums atoms lists b ts (branch t us) rest r enough =
    ap (atoms_from (suc n) nums ts) (split_lead b)
    ∙ turn-some n nums ts (gap b (print_atom nums t ++ (print_tail nums us ++ shut rest)))
        (print_tail nums us ++ shut rest) t
        (atoms b t (print_tail nums us ++ shut rest) r.0 (omega arith) (tail-Stops nums us rest))
    ∙ lists true (add_behind ts t) us rest r.1 (omega arith)
    ∙ ap (λ vs. (some vs, rest)) (append_trees-add_behind ts t us)
  where
    regroup : (xs ys zs : List ℕ) → (xs ++ ys) ++ zs ≡ xs ++ (ys ++ zs)
    regroup [] ys zs = refl
    regroup (x ∷ xs) ys zs = ap (λ l. x ∷ l) (regroup xs ys zs)

    split_lead :
        (b : Bool)
        → lead b nums (branch t us) ++ shut rest
          ≡ gap b (print_atom nums t ++ (print_tail nums us ++ shut rest))
    split_lead true =
        ap (λ l. 32 ∷ l) (regroup (print_atom nums t) (print_tail nums us) (shut rest))
    split_lead false = regroup (print_atom nums t) (print_tail nums us) (shut rest)

reads : (n : ℕ) (nums : Numerals) → ReadsAtoms n nums × ReadsLists n nums
unfolding cost
reads zero nums = (
  λ b t rest r enough stop. absurd (omega arith),
  λ b ts us rest r enough. absurd (omega (arith, cost_pos us)),
)
  where
    cost_pos : (us : Trees) → 0 < cost us
    cost_pos leaf = omega arith
    cost_pos (branch t us) = omega arith
reads (suc n) nums =
    let (atoms, lists) = reads n nums in (read_atom n nums lists, read_list n nums atoms lists)

token_pos : (s : List ℕ) → IsToken s → 1 ≤ length s
token_pos [] t = absurd t
token_pos (c ∷ cs) t = omega arith

tail_longer :
    (nums : Numerals) (ts : Trees) → length (print_items nums ts) ≤ length (print_tail nums ts)
unfolding print_atom
tail_longer nums leaf = omega arith
tail_longer nums (branch t ts) = omega arith

-- Two calls for each character are enough.
mutual
  unfolding print_atom IsReadableAtom cost_atom

  atom_cost_bound :
      (nums : Numerals) (t : Tree)
      → IsReadableAtom nums t
      → cost_atom t + 2 ≤ 2 * length (print_atom nums t)
  atom_cost_bound nums (int_atom i) r = omega (arith, token_pos (nums.show_int i) r.0)
  atom_cost_bound nums (float_atom f) r = omega (arith, token_pos (nums.show_float f) r.0)
  atom_cost_bound nums (symbol_atom s) r = omega (arith, token_pos s r.0)
  atom_cost_bound nums (packet_atom p) r = absurd r
  atom_cost_bound nums (list_atom ts) r =
      omega (arith, cost_bound nums ts r, length-append (print_items nums ts) (b')' ∷ []))
  atom_cost_bound nums (other_atom t w) r = absurd r

  cost_bound :
      (nums : Numerals) (ts : Trees)
      → IsReadable nums ts
      → cost ts ≤ 2 * length (print_items nums ts) + 2
  cost_bound nums leaf r = omega arith
  cost_bound nums (branch t ts) r = omega (
    arith,
    atom_cost_bound nums t r.0,
    cost_bound nums ts r.1,
    tail_longer nums ts,
    length-append (print_atom nums t) (print_tail nums ts),
  )

-- A tree of numbers, symbols and lists, with no packet and no atom of another type in it, whose numbers
-- and symbols are tokens of themselves, is read back from its printed text, and what stands behind
-- the text is left.
pub tree_from-print_tree :
    (nums : Numerals) (ts : Trees) (rest : List ℕ)
    → IsReadable nums ts
    → tree_from nums (print_tree nums ts ++ rest) ≡ (some ts, rest)
unfolding tree_from print_tree tree_at
tree_from-print_tree nums ts rest r =
    let text = print_tree nums ts ++ rest in
    ap (tree_at (2 * length text + 2) nums)
      (skip_whitespace_start text (refl, λ e. omega (arith, e)))
    ∙ ap (atoms_from (2 * length text + 2) nums leaf) (snoc_list (print_items nums ts) b')' rest)
    ∙ (reads (2 * length text + 2) nums).1 false leaf ts rest r (
        omega (
          arith,
          cost_bound nums ts r,
          length-append (print_items nums ts) (b')' ∷ []),
          length-append (print_items nums ts ++ (b')' ∷ [])) rest,
        ))
