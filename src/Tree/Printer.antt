-- ===== src/Tree/Printer.antt =====
-- The printer of system/kernel/pdp_list.c, `_pdp_atom_fprint` and `_pdp_atomlist_fprint`.
use pdp.Base.{ℕ, List, [], ◌∷◌, ◌++◌}
use pdp.Tree.{
  Tree, int_atom, float_atom, symbol_atom, packet_atom, list_atom, other_atom, Trees, leaf, branch,
  Numerals,
}

-- `print_tail` prints atoms that stand behind another one, each after a space.
unfoldable mutual
  pub print_atom : Numerals → Tree → List ℕ
  print_atom nums (int_atom i) = nums.show_int i
  print_atom nums (float_atom f) = nums.show_float f
  print_atom nums (symbol_atom s) = s
  print_atom nums (packet_atom p) = nums.show_packet p
  print_atom nums (list_atom ts) = b'(' ∷ (print_items nums ts ++ (b')' ∷ []))
  print_atom nums (other_atom t w) = nums.show_other t w

  pub print_items : Numerals → Trees → List ℕ
  print_items nums leaf = []
  print_items nums (branch t ts) = print_atom nums t ++ print_tail nums ts

  pub print_tail : Numerals → Trees → List ℕ
  print_tail nums leaf = []
  print_tail nums (branch t ts) = 32 ∷ (print_atom nums t ++ print_tail nums ts)

-- `_pdp_atomlist_fprint`
unfoldable pub print_tree : Numerals → Trees → List ℕ
print_tree nums ts = b'(' ∷ (print_items nums ts ++ (b')' ∷ []))
