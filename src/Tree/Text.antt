-- ===== src/Tree/Text.antt =====
-- The texts of atoms: what a token is, where the parser skips, and what stops it.
use pdp.Base.{
  ℕ, suc, ◌≡◌, ◌≢◌, refl, ap, ◌∙◌, arith, Bool, true, false, Option, some, List, [], ◌∷◌, ◌++◌,
  length, ne→==, eq→==,
}
use pdp.Tree.{
  Tree, int_atom, float_atom, symbol_atom, packet_atom, list_atom, other_atom, Trees, leaf, branch,
  Numerals, is_whitespace, is_separator,
}
use pdp.Tree.Parser.{
  skip_real_whitespace, skip_comment, skip_loop, skip_whitespace, token, parse_pure_atom, pure_from,
  atom_at,
}
use pdp.Tree.Printer.{print_atom}

abbrev pub AllPlain : List ℕ → Type 0
AllPlain [] = Unit {0}
AllPlain (c ∷ cs) = (is_separator c ≡ false) × AllPlain cs

-- A text that is one pure atom: not empty, without separators, and no comment.
abbrev pub IsToken : List ℕ → Type 0
IsToken [] = ⊥
IsToken (c ∷ cs) = (c ≢ b'#') × AllPlain (c ∷ cs)

-- A text that starts with neither whitespace nor a comment.
abbrev pub Starts : List ℕ → Type 0
Starts [] = Unit {0}
Starts (c ∷ cs) = (is_whitespace c ≡ false) × (c ≢ b'#')

skip_once : (s : List ℕ) → Starts s → skip_comment (skip_real_whitespace s) ≡ s
unfolding skip_comment skip_real_whitespace
skip_once [] st = refl
skip_once (c ∷ cs) (plain, ne) = rw plain (rw (ne→== c b'#' ne) refl)

skip_loop_start : (n : ℕ) (s : List ℕ) → Starts s → skip_loop (suc n) s ≡ s
unfolding skip_loop
skip_loop_start n s st = rw (skip_once s st, skip_loop) (rw (eq→== (length s) (length s) refl) refl)

pub skip_whitespace_start : (s : List ℕ) → Starts s → skip_whitespace s ≡ s
unfolding skip_whitespace
skip_whitespace_start s st = skip_loop_start (length s) s st

skip_space : (s : List ℕ) → Starts s → skip_comment (skip_real_whitespace (32 ∷ s)) ≡ s
unfolding skip_real_whitespace
skip_space s st = skip_once s st

skip_whitespace_space : (s : List ℕ) → Starts s → skip_whitespace (32 ∷ s) ≡ s
unfolding skip_whitespace skip_loop
skip_whitespace_space s st =
    rw (skip_space s st, skip_loop)
      (rw (ne→== (length s) (suc (length s)) (omega arith)) (skip_loop_start (length s) s st))

-- A text that a token ends in front of.
abbrev pub Stops : List ℕ → Type 0
Stops [] = Unit {0}
Stops (c ∷ cs) = is_separator c ≡ true

token-append : (s rest : List ℕ) → AllPlain s → Stops rest → token (s ++ rest) ≡ (s, rest)
unfolding token
token-append [] [] plain stop = refl
token-append [] (c ∷ cs) plain stop = rw stop refl
token-append (c ∷ cs) rest plain stop =
    rw (plain.0, token) (rw (token-append cs rest plain.1 stop) refl)

-- A tree that its text stands for: its numbers and symbols are tokens that the parser reads as what they
-- are, and it has nothing else but lists.
abbrev pub IsPure : Numerals → Tree → List ℕ → Type 0
IsPure nums t s = IsToken s × (parse_pure_atom nums s ≡ t)

unfoldable mutual
  pub IsReadableAtom : Numerals → Tree → Type 0
  IsReadableAtom nums (int_atom i) = IsPure nums (int_atom i) (nums.show_int i)
  IsReadableAtom nums (float_atom f) = IsPure nums (float_atom f) (nums.show_float f)
  IsReadableAtom nums (symbol_atom s) = IsPure nums (symbol_atom s) s
  IsReadableAtom nums (packet_atom p) = ⊥
  IsReadableAtom nums (list_atom ts) = IsReadable nums ts
  IsReadableAtom nums (other_atom t w) = ⊥

  pub IsReadable : Numerals → Trees → Type 0
  IsReadable nums leaf = Unit {0}
  IsReadable nums (branch t ts) = IsReadableAtom nums t × IsReadable nums ts

abbrev pub gap : Bool → List ℕ → List ℕ
gap true s = 32 ∷ s
gap false s = s

pub skip_whitespace-gap : (b : Bool) (s : List ℕ) → Starts s → skip_whitespace (gap b s) ≡ s
skip_whitespace-gap true s st = skip_whitespace_space s st
skip_whitespace-gap false s st = skip_whitespace_start s st

token-Starts : (s rest : List ℕ) → IsToken s → Starts (s ++ rest)
token-Starts [] rest t = absurd t
token-Starts (c ∷ cs) rest t = (ground (arith, t.1.0), t.0)

pub atom-Starts :
    (nums : Numerals) (t : Tree) (rest : List ℕ)
    → IsReadableAtom nums t
    → Starts (print_atom nums t ++ rest)
unfolding print_atom IsReadableAtom
atom-Starts nums (int_atom i) rest r = token-Starts (nums.show_int i) rest r.0
atom-Starts nums (float_atom f) rest r = token-Starts (nums.show_float f) rest r.0
atom-Starts nums (symbol_atom s) rest r = token-Starts s rest r.0
atom-Starts nums (packet_atom p) rest r = absurd r
atom-Starts nums (list_atom ts) rest r = (refl, λ e. omega (arith, e))
atom-Starts nums (other_atom t w) rest r = absurd r

-- A pure atom is read from its text.
pub atom_at-pure :
    (read_list : List ℕ → Option Trees × List ℕ) (nums : Numerals) (t : Tree) (s rest : List ℕ)
    → IsPure nums t s
    → Stops rest
    → atom_at read_list nums (s ++ rest) ≡ (some t, rest)
unfolding atom_at
atom_at-pure read_list nums t [] rest p stop = absurd p.0
atom_at-pure read_list nums t (c ∷ cs) rest ((ne, plain), same) stop =
    rw (ne→== c b')' (closes plain.0), atom_at)
      (rw (ne→== c b'(' (opens plain.0)) (
        ap (pure_from nums (c ∷ (cs ++ rest))) (token-append (c ∷ cs) rest plain stop)
        ∙ ap (λ u. (some u, rest)) same))
  where
    closes : is_separator c ≡ false → c ≢ b')'
    closes e = ground arith

    opens : is_separator c ≡ false → c ≢ b'('
    opens e = ground arith
