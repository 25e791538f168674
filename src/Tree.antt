-- ===== src/Tree.antt =====
-- The trees of system/kernel/pdp_list.c, lists whose atoms may be lists: what the text of a tree stands
-- for and how a tree is printed and checked. A text is the list of its bytes before the final zero.
pub mod Parser
pub mod Printer
pub mod Text
pub mod Syntax
pub mod RoundTrip
pub mod Rounds
mod Tests
use pdp.Base.{
  ℕ, zero, suc, Bool, true, false, ◌&&◌, ◌||◌, Option, none, some, List, [], ◌∷◌, ◌++◌, ◌==◌,
  if◌then◌else◌,
}

-- The atoms of a tree. A symbol is its name; the words that text cannot stand for are `other`, with the
-- type's number and the word.
mutual
  pub data Tree : Type 0 where
    int_atom : ℕ → Tree
    float_atom : ℕ → Tree
    symbol_atom : List ℕ → Tree
    packet_atom : ℕ → Tree
    list_atom : Trees → Tree
    other_atom : ℕ → ℕ → Tree

  pub data Trees : Type 0 where
    leaf : Trees
    branch : Tree → Trees → Trees

-- `strtol` and `strtod` of the C library on a whole text, and its `%d` and `%f`: a number is its bit
-- pattern, and `none` means that characters were left. The texts of packets and of the remaining words
-- are for the eye only.
pub record Numerals : Type 0 where
  pub strtol : List ℕ → Option ℕ
  pub strtod : List ℕ → Option ℕ
  pub show_int : ℕ → List ℕ
  pub show_float : ℕ → List ℕ
  pub show_packet : ℕ → List ℕ
  pub show_other : ℕ → ℕ → List ℕ

-- An atom put behind the others, as `pdp_list_add_back_atom` does.
abbrev pub add_behind : Trees → Tree → Trees
add_behind leaf t = branch t leaf
add_behind (branch u us) t = branch u (add_behind us t)

-- `_is_whitespace` and the separators.
abbrev pub is_whitespace : ℕ → Bool
is_whitespace c = c == 32 || c == 10 || c == 9

abbrev pub is_separator : ℕ → Bool
is_separator c = c == 0 || c == b'(' || c == b')' || is_whitespace c
