-- ===== src/Tree/Parser.antt =====
-- The parser of system/kernel/pdp_list.c. What a function leaves of the text comes back with its result.
use pdp.Base.{
  ℕ, zero, suc, ◌+◌, ◌*◌, Bool, true, false, ◌||◌, Option, none, some, List, [], ◌∷◌, ◌==◌,
  if◌then◌else◌, length,
}
use pdp.Tree.{
  Tree, int_atom, float_atom, symbol_atom, list_atom, Trees, leaf, Numerals, add_behind,
  is_whitespace, is_separator,
}

-- `_skip_real_whitespace`
unfoldable pub skip_real_whitespace : List ℕ → List ℕ
skip_real_whitespace [] = []
skip_real_whitespace (c ∷ cs) =
    let rest = skip_real_whitespace cs in if is_whitespace c then rest else c ∷ cs

-- The rest of a comment, with the newline that ends it.
unfoldable pub skip_line : List ℕ → List ℕ
skip_line [] = []
skip_line (c ∷ cs) = let rest = skip_line cs in if c == 10 then cs else rest

-- `_skip_comment`
unfoldable pub skip_comment : List ℕ → List ℕ
unfolding skip_line
skip_comment [] = []
skip_comment (c ∷ cs) = if c == b'#' then skip_line cs else c ∷ cs

-- The loop of `_skip_whitespace`, with the turns that are left: it ends when the pointer stays.
unfoldable pub skip_loop : ℕ → List ℕ → List ℕ
unfolding skip_real_whitespace skip_comment
skip_loop zero s = s
skip_loop (suc n) s =
    let s' = skip_comment (skip_real_whitespace s) in
    let again = skip_loop n s' in if length s' == length s then s' else again

-- `_skip_whitespace`: each turn but the last takes a character.
unfoldable pub skip_whitespace : List ℕ → List ℕ
skip_whitespace s = skip_loop (suc (length s)) s

-- The characters up to a separator or the end, and those from there on.
unfoldable pub token : List ℕ → List ℕ × List ℕ
token [] = ([], [])
token (c ∷ cs) =
    let rest = token cs in if is_separator c then ([], c ∷ cs) else (c ∷ rest.0, rest.1)

unfoldable pub has_point : List ℕ → Bool
has_point [] = false
has_point (c ∷ cs) = c == b'.' || has_point cs

-- `_parse_pure_atom`
unfoldable pub parse_pure_atom : Numerals → List ℕ → Tree
parse_pure_atom nums s = elim (has_point s) [
  | true ↦ elim (nums.strtod s) [ some f ↦ float_atom f | none ↦ symbol_atom s ]
  | false ↦ elim (nums.strtol s) [ some i ↦ int_atom i | none ↦ symbol_atom s ]
]

-- A pure atom, from the token that was found; there may be none.
abbrev pub pure_from : Numerals → List ℕ → List ℕ × List ℕ → Option Tree × List ℕ
pure_from nums s ([], rest) = (none, s)
pure_from nums s (c ∷ cs, rest) = (some (parse_pure_atom nums (c ∷ cs)), rest)

abbrev pub pure_atom : Numerals → List ℕ → Option Tree × List ℕ
pure_atom nums s = pure_from nums s (token s)

abbrev pub as_list_atom : Option Trees × List ℕ → Option Tree × List ℕ
as_list_atom (none, rest) = (none, rest)
as_list_atom (some ts, rest) = (some (list_atom ts), rest)

-- The closing parenthesis of `pdp_tree_from_cstring`; without it the atoms are dropped.
unfoldable pub close_list : Trees → List ℕ → Option Trees × List ℕ
close_list ts s = elim (skip_whitespace s) [
  | [] ↦ (none, [])
  | c ∷ cs ↦ if c == b')' then (some ts, cs) else (none, c ∷ cs)
]

-- `pdp_atom_from_cstring` behind the whitespace, where `read_list` reads a list's atoms.
unfoldable pub atom_at : (List ℕ → Option Trees × List ℕ) → Numerals → List ℕ → Option Tree × List ℕ
atom_at read_list nums [] = (none, [])
atom_at read_list nums (c ∷ cs) = elim (c == b')') [
  | true ↦ (none, c ∷ cs)
  | false ↦ elim (c == b'(') [
    | true ↦ as_list_atom (read_list cs)
    | false ↦ pure_atom nums (c ∷ cs)
  ]
]

-- `pdp_atom_from_cstring`, and the loop of `pdp_tree_from_cstring` behind the opening parenthesis, with
-- the calls that are left.
unfoldable mutual
  pub atom_from : ℕ → Numerals → List ℕ → Option Tree × List ℕ
  atom_from zero nums s = (none, s)
  atom_from (suc n) nums s = atom_at (λ cs. atoms_from n nums leaf cs) nums (skip_whitespace s)

  pub atoms_from : ℕ → Numerals → Trees → List ℕ → Option Trees × List ℕ
  atoms_from zero nums ts s = (none, s)
  atoms_from (suc n) nums ts s =
      let found = atom_from n nums s in
      elim found.0 [
        | none ↦ close_list ts found.1
        | some t ↦ atoms_from n nums (add_behind ts t) found.1
      ]

-- `pdp_tree_from_cstring` behind the whitespace.
unfoldable pub tree_at : ℕ → Numerals → List ℕ → Option Trees × List ℕ
tree_at n nums [] = (none, [])
tree_at n nums (c ∷ cs) = if c == b'(' then atoms_from n nums leaf cs else (none, c ∷ cs)

-- `pdp_tree_from_cstring`: two calls for each character and one to find the end.
unfoldable pub tree_from : Numerals → List ℕ → Option Trees × List ℕ
tree_from nums s = tree_at (2 * length s + 2) nums (skip_whitespace s)
