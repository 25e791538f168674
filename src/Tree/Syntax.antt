-- ===== src/Tree/Syntax.antt =====
-- The check of a tree against a syntax, `pdp_tree_check_syntax` in system/kernel/pdp_list.c. The syntax
-- is a tree of type names, `*` for any atom, and `...` at its end for any number of further rounds.
use pdp.Base.{ℕ, Bool, true, false, ◌&&◌, ◌||◌, List, [], ◌∷◌}
use pdp.Symbol.{same_name}
use pdp.Tree.{
  Tree, int_atom, float_atom, symbol_atom, packet_atom, list_atom, other_atom, Trees, leaf, branch,
}

abbrev pub ellipsis : List ℕ
ellipsis = b'.' ∷ b'.' ∷ b'.' ∷ []

unfoldable pub is_ellipsis : Tree → Bool
unfolding same_name
is_ellipsis (symbol_atom s) = same_name s ellipsis
is_ellipsis _ = false

-- The syntaxes that an empty list fits: the empty one, and one whose last atom is the ellipsis.
unfoldable pub fits_empty : Trees → Bool
unfolding is_ellipsis
fits_empty leaf = true
fits_empty (branch s leaf) = is_ellipsis s
fits_empty (branch s (branch s' ss)) = fits_empty (branch s' ss)

-- The name of a type that a syntax asks for, at an atom of that type.
unfoldable pub fits_name : Tree → List ℕ → Bool
unfolding same_name
fits_name (int_atom i) s = same_name s (b'i' ∷ b'n' ∷ b't' ∷ [])
fits_name (float_atom f) s = same_name s (b'f' ∷ b'l' ∷ b'o' ∷ b'a' ∷ b't' ∷ [])
fits_name (symbol_atom n) s = same_name s (b's' ∷ b'y' ∷ b'm' ∷ b'b' ∷ b'o' ∷ b'l' ∷ [])
fits_name (packet_atom p) s = same_name s (b'p' ∷ b'a' ∷ b'c' ∷ b'k' ∷ b'e' ∷ b't' ∷ [])
fits_name (list_atom ts) s = same_name s (b'l' ∷ b'i' ∷ b's' ∷ b't' ∷ [])
fits_name (other_atom t w) s = false

abbrev pub is_leaf : Trees → Bool
is_leaf leaf = true
is_leaf (branch t ts) = false

-- `check_atom` is the switch on what the syntax expects of one atom, the ellipsis aside. `check_from` is
-- the loop: `first` is the whole syntax, `at_first` says that the loop is at its first atom, and
-- the ellipsis goes back there, unless it is the first itself.
unfoldable mutual
  pub check_atom : Tree → Tree → Bool
  check_atom (list_atom leaf) (list_atom syntax) = fits_empty syntax
  check_atom (list_atom (branch t ts)) (list_atom syntax) =
      check_from syntax true syntax (branch t ts)
  check_atom t (symbol_atom s) = same_name s (b'*' ∷ []) || fits_name t s
  check_atom t _ = false

  pub check_from : Trees → Bool → Trees → Trees → Bool
  check_from first at_first leaf leaf = true
  check_from first at_first (branch s ss) leaf = is_ellipsis s
  check_from first at_first leaf (branch t ts) = false
  check_from first at_first (branch s ss) (branch t ts) = elim (is_ellipsis s) [
    | false ↦ check_atom t s && check_from first false ss ts
    | true ↦ elim at_first [
      | true ↦ false
      | false ↦ elim first [
        | leaf ↦ false
        | branch f fs ↦ elim (is_ellipsis f) [
          | true ↦ false
          | false ↦ check_atom t f && check_from (branch f fs) false fs ts
        ]
      ]
    ]
  ]

-- `pdp_tree_check_syntax`
unfoldable pub check_syntax : Trees → Trees → Bool
check_syntax leaf syntax = fits_empty syntax
check_syntax (branch t ts) syntax = check_from syntax true syntax (branch t ts)
