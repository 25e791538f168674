-- ===== src/Tree/Tests.antt =====
-- Trees as text: runs, and the round trip at a concrete tree.
use pdp.Base.{◌≡◌, ◌↔◌, refl, arith, true, false, none, some, [], ◌∷◌, ◌++◌, ◌==◌, if◌then◌else◌}
use pdp.Tree.{int_atom, symbol_atom, list_atom, Tree, Trees, leaf, branch, Numerals}
use pdp.Tree.Parser.{
  tree_from, tree_at, atoms_from, atom_at, close_list, skip_whitespace, skip_loop, skip_comment,
  skip_real_whitespace, skip_line, token, parse_pure_atom, has_point,
}
use pdp.Tree.Printer.{print_tree, print_items}
use pdp.Symbol.{same_name}
use pdp.Tree.Syntax.{ellipsis, is_ellipsis, fits_name, check_from, check_syntax}
use pdp.Tree.Text.{IsReadable}
use pdp.Tree.RoundTrip.{tree_from-print_tree}
use pdp.Tree.Rounds.{dots, Rounds, IsPlain, check_syntax-Rounds}

-- One digit is a number, and nothing else is.
abbrev digits : Numerals
digits = record {
  strtol = λ s. elim s [
    | [] ↦ none
    | c ∷ cs ↦ elim cs [ [] ↦ if c == b'6' then some 6 else none | d ∷ ds ↦ none ]
  ];
  strtod = λ s. none;
  show_int = λ i. b'6' ∷ [];
  show_float = λ f. [];
  show_packet = λ p. [];
  show_other = λ t w. [];
}

-- `(a (6) ab)`
abbrev small_tree : Trees
small_tree =
    branch (symbol_atom (b'a' ∷ []))
      (branch (list_atom (branch (int_atom 6) leaf)) (branch (symbol_atom (b'a' ∷ b'b' ∷ [])) leaf))

small_text :
    print_tree digits small_tree
    ≡ b'(' ∷ b'a' ∷ 32 ∷ b'(' ∷ b'6' ∷ b')' ∷ 32 ∷ b'a' ∷ b'b' ∷ b')' ∷ []
unfolding print_tree print_items
small_text = refl

comment_skipped :
    tree_from digits (b'#' ∷ b'a' ∷ 10 ∷ b'(' ∷ 32 ∷ b'6' ∷ b')' ∷ [])
    ≡ (some (branch (int_atom 6) leaf), [])
unfolding tree_from tree_at atoms_from atom_at close_list skip_whitespace skip_loop skip_comment
    skip_real_whitespace skip_line token parse_pure_atom has_point
comment_skipped = refl

small_tree-IsReadable : IsReadable digits small_tree
unfolding IsReadable parse_pure_atom has_point
small_tree-IsReadable = (
  ((λ e. omega (arith, e), (refl, tt)), refl),
  (
    (((λ e. omega (arith, e), (refl, tt)), refl), tt),
    (((λ e. omega (arith, e), (refl, (refl, tt))), refl), tt),
  ),
)

tree_from-print_tree_example :
    tree_from digits (print_tree digits small_tree ++ (b'x' ∷ [])) ≡ (some small_tree, b'x' ∷ [])
tree_from-print_tree_example =
    tree_from-print_tree digits small_tree (b'x' ∷ []) small_tree-IsReadable

-- `(symbol ...)`
abbrev symbols_syntax : Trees
symbols_syntax =
    branch (symbol_atom (b's' ∷ b'y' ∷ b'm' ∷ b'b' ∷ b'o' ∷ b'l' ∷ []))
      (branch (symbol_atom ellipsis) leaf)

two_symbols_fit :
    check_syntax (branch (symbol_atom []) (branch (symbol_atom []) leaf)) symbols_syntax ≡ true
unfolding check_syntax check_from is_ellipsis fits_name same_name
two_symbols_fit = refl

number_does_not_fit :
    check_syntax (branch (symbol_atom []) (branch (int_atom 6) leaf)) symbols_syntax ≡ false
unfolding check_syntax check_from is_ellipsis fits_name same_name
number_does_not_fit = refl

-- `int list ...`
abbrev int_name : Tree
int_name = symbol_atom (b'i' ∷ b'n' ∷ b't' ∷ [])

abbrev list_name : Tree
list_name = symbol_atom (b'l' ∷ b'i' ∷ b's' ∷ b't' ∷ [])

abbrev two_rounds : Trees
two_rounds =
    branch (int_atom 6)
      (branch (list_atom leaf) (branch (int_atom 7) (branch (list_atom small_tree) leaf)))

block-IsPlain : IsPlain (branch int_name (branch list_name leaf))
unfolding is_ellipsis same_name
block-IsPlain = (refl, (refl, tt))

check_syntax-Rounds_example :
    (check_syntax two_rounds (branch int_name (branch list_name (branch dots leaf))) ≡ true)
    ↔ Rounds (branch int_name (branch list_name leaf)) two_rounds
check_syntax-Rounds_example =
    check_syntax-Rounds int_name (branch list_name leaf) two_rounds block-IsPlain
