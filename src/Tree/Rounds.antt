-- ===== src/Tree/Rounds.antt =====
-- What a syntax with an ellipsis at its end stands for.
use mathlib.Core.Path.{subst}
use pdp.Base.{◌≡◌, ◌↔◌, refl, ap, ◌∙◌, sym, Bool, true, false, ◌&&◌, arith}
use pdp.Symbol.{same_name}
use pdp.Tree.{Tree, symbol_atom, Trees, leaf, branch, add_behind}
use pdp.Tree.Syntax.{ellipsis, is_ellipsis, fits_empty, check_atom, check_from, check_syntax}

abbrev pub dots : Tree
dots = symbol_atom ellipsis

abbrev pub join_trees : Trees → Trees → Trees
join_trees leaf vs = vs
join_trees (branch t ts) vs = branch t (join_trees ts vs)

-- The atoms fit a syntax one by one.
abbrev pub FitsEach : Trees → Trees → Type 0
FitsEach leaf leaf = Unit {0}
FitsEach leaf (branch t ts) = ⊥
FitsEach (branch s ss) leaf = ⊥
FitsEach (branch s ss) (branch t ts) = (check_atom t s ≡ true) × FitsEach ss ts

-- Any number of rounds of a block, none included.
pub data Rounds (block : Trees) : Trees → Type 0 where
  no_round : Rounds block leaf
  round : (us vs : Trees) → FitsEach block us → Rounds block vs → Rounds block (join_trees us vs)

-- A block without ellipsis.
abbrev pub IsPlain : Trees → Type 0
IsPlain leaf = Unit {0}
IsPlain (branch s ss) = (is_ellipsis s ≡ false) × IsPlain ss

and_true : (a b : Bool) → (a && b) ≡ true → (a ≡ true) × (b ≡ true)
and_true a b h = ground arith

dots_are : is_ellipsis dots ≡ true
unfolding is_ellipsis same_name
dots_are = refl

-- A turn of the loop at an atom, and at the ellipsis behind a round.
turn_atom :
    (first : Trees) (at_first : Bool) (s t : Tree) (ss ts : Trees)
    → is_ellipsis s ≡ false
    → check_from first at_first (branch s ss) (branch t ts)
      ≡ (check_atom t s && check_from first false ss ts)
unfolding check_from
turn_atom first at_first s t ss ts e = rw (e, check_from) refl

turn_dots :
    (p t : Tree) (ps ts : Trees)
    → is_ellipsis p ≡ false
    → check_from (branch p ps) false (branch dots leaf) (branch t ts)
      ≡ (check_atom t p && check_from (branch p ps) false ps ts)
unfolding check_from is_ellipsis same_name
turn_dots p t ps ts e = rw (e, check_from) refl

fits_empty-dots : (ss : Trees) → fits_empty (add_behind ss dots) ≡ true
unfolding fits_empty
fits_empty-dots leaf = dots_are
fits_empty-dots (branch s leaf) = dots_are
fits_empty-dots (branch s (branch s' ss)) = fits_empty-dots (branch s' ss)

-- A syntax that has read some of a block accepts the rest of the block and further rounds.
record RestAndRounds (block rest ts : Trees) : Type 0 where
  read : Trees
  later : Trees
  splits : ts ≡ join_trees read later
  fits : FitsEach rest read
  rounds : Rounds block later

no_match : (s : Tree) → is_ellipsis s ≡ false → is_ellipsis s ≡ true → ⊥
no_match s e h = ground arith

check_from_sound :
    (p : Tree) (ps rest ts : Trees)
    → is_ellipsis p ≡ false
    → IsPlain ps
    → IsPlain rest
    → check_from (branch p (add_behind ps dots)) false (add_behind rest dots) ts ≡ true
    → RestAndRounds (branch p ps) rest ts
unfolding check_from
check_from_sound p ps leaf leaf e plain plain' h = record {
  read = leaf;
  later = leaf;
  splits = refl;
  fits = tt;
  rounds = no_round;
}
check_from_sound p ps (branch s ss) leaf e plain plain' h = absurd (no_match s plain'.0 h)
check_from_sound p ps leaf (branch t ts) e plain plain' h =
    let both = and_true _ _ (sym (turn_dots p t (add_behind ps dots) ts e) ∙ h) in
    let r = check_from_sound p ps ps ts e plain plain both.1 in
    record {
      read = leaf;
      later = branch t ts;
      splits = refl;
      fits = tt;
      rounds =
          subst (λ us. Rounds (branch p ps) (branch t us)) (sym r.splits)
            (round (branch t r.read) r.later (both.0, r.fits) r.rounds);
    }
check_from_sound p ps (branch s ss) (branch t ts) e plain plain' h =
    let both = and_true _ _ (
      sym (turn_atom (branch p (add_behind ps dots)) false s t (add_behind ss dots) ts plain'.0)
      ∙ h) in
    let r = check_from_sound p ps ss ts e plain plain'.1 both.1 in
    record {
      read = branch t r.read;
      later = r.later;
      splits = ap (branch t) r.splits;
      fits = (both.0, r.fits);
      rounds = r.rounds;
    }

true_and : (a b : Bool) → a ≡ true → b ≡ true → (a && b) ≡ true
true_and a b h k = ground arith

-- A block that is read in full leaves what is behind it.
check_from-skip :
    (p : Tree) (ps rest us vs : Trees)
    → IsPlain rest
    → FitsEach rest us
    → check_from (branch p (add_behind ps dots)) false (branch dots leaf) vs ≡ true
    → check_from (branch p (add_behind ps dots)) false (add_behind rest dots) (join_trees us vs)
      ≡ true
check_from-skip p ps leaf leaf vs plain f h = h
check_from-skip p ps leaf (branch u us) vs plain f h = absurd f
check_from-skip p ps (branch s ss) leaf vs plain f h = absurd f
check_from-skip p ps (branch s ss) (branch u us) vs plain f h =
    turn_atom (branch p (add_behind ps dots)) false s u (add_behind ss dots) (join_trees us vs)
      plain.0
    ∙ true_and _ _ f.0 (check_from-skip p ps ss us vs plain.1 f.1 h)

dots_end :
    (p : Tree) (ps : Trees)
    → check_from (branch p (add_behind ps dots)) false (branch dots leaf) leaf ≡ true
unfolding check_from
dots_end p ps = dots_are

check_from_complete :
    (p : Tree) (ps ts : Trees)
    → IsPlain (branch p ps)
    → Rounds (branch p ps) ts
    → check_from (branch p (add_behind ps dots)) false (branch dots leaf) ts ≡ true
check_from_complete p ps leaf plain no_round = dots_end p ps
check_from_complete p ps ts plain (round leaf vs f r) = absurd f
check_from_complete p ps ts plain (round (branch u us) vs f r) =
    turn_dots p u (add_behind ps dots) (join_trees us vs) plain.0
    ∙ true_and _ _ f.0
        (check_from-skip p ps ps us vs plain.1 f.1 (check_from_complete p ps vs plain r))

nothing_read :
    (block us vs : Trees) → FitsEach leaf us → Rounds block vs → Rounds block (join_trees us vs)
nothing_read block leaf vs f r = r
nothing_read block (branch u us) vs f r = absurd f

-- At the first atom the loop acts as it does behind a round.
check_syntax-loop :
    (p : Tree) (ps ts : Trees)
    → is_ellipsis p ≡ false
    → check_syntax ts (branch p (add_behind ps dots))
      ≡ check_from (branch p (add_behind ps dots)) false (branch dots leaf) ts
unfolding check_syntax
check_syntax-loop p ps leaf e = fits_empty-dots (branch p ps) ∙ sym (dots_end p ps)
check_syntax-loop p ps (branch t ts) e =
    turn_atom (branch p (add_behind ps dots)) true p t (add_behind ps dots) ts e
    ∙ sym (turn_dots p t (add_behind ps dots) ts e)

-- A list fits a syntax that ends in an ellipsis exactly when it consists of any number of rounds, none
-- included, whose atoms fit what stands before the ellipsis one by one. There is something
-- before it, and no other ellipsis.
pub check_syntax-Rounds :
    (p : Tree) (ps ts : Trees)
    → IsPlain (branch p ps)
    → (check_syntax ts (add_behind (branch p ps) dots) ≡ true) ↔ Rounds (branch p ps) ts
check_syntax-Rounds p ps ts plain = (
  λ h. all_rounds (
      check_from_sound p ps leaf ts plain.0 plain.1 tt
        (sym (check_syntax-loop p ps ts plain.0) ∙ h)),
  λ r. check_syntax-loop p ps ts plain.0 ∙ check_from_complete p ps ts plain r,
)
  where
    all_rounds : RestAndRounds (branch p ps) leaf ts → Rounds (branch p ps) ts
    all_rounds r =
        subst (Rounds (branch p ps)) (sym r.splits)
          (nothing_read (branch p ps) r.read r.later r.fits r.rounds)
