-- ===== src/Symbol/Intern.antt =====
-- Interning: equal names give one symbol, for good.
use native.Mathlib.Decide.{ℕ_discrete}
use pdp.Base.{
  ℕ, ◌≡◌, ◌≢◌, refl, ap, ◌∙◌, sym, true, Option, none, some, List, [], ◌∷◌, ◌++◌, inl, inr,
  Bool-cases, Option-cases, ==-refl, eq→==, ne→==,
}
use pdp.Symbol.{Entry, Table, same_name, chain_of, find_entry, set_chain, dogensym, gensym}

pub same_name_refl : (s : List ℕ) → same_name s s ≡ true
unfolding same_name
same_name_refl [] = refl
same_name_refl (c ∷ cs) = rw (==-refl c) (same_name_refl cs)

-- What a name stands for in the table.
abbrev pub lookup : Table → List ℕ → Option ℕ
lookup t s = find_entry s (t.chains (chain_of s))

find_entry-append :
    (s : List ℕ) (es : List Entry) (e : Entry) {y : ℕ}
    → find_entry s es ≡ some y
    → find_entry s (es ++ (e ∷ [])) ≡ some y
unfolding find_entry
find_entry-append s [] e found = absurd (cc)
find_entry-append s (x ∷ xs) e found = elim (Bool-cases (same_name x.name s)) [
  | inl hit ↦ rw hit (rw hit at found)
  | inr miss ↦ rw miss (find_entry-append s xs e (rw miss at found))
]

find_entry-append_new :
    (s : List ℕ) (es : List Entry) (e : Entry)
    → e.name ≡ s
    → find_entry s es ≡ none
    → find_entry s (es ++ (e ∷ [])) ≡ some e.symbol
unfolding find_entry
find_entry-append_new s [] e same absent = rw (ap (λ n. same_name n s) same ∙ same_name_refl s) refl
find_entry-append_new s (x ∷ xs) e same absent = elim (Bool-cases (same_name x.name s)) [
  | inl hit ↦ absurd (cc (let found : some x.symbol ≡ none = rw hit at absent in found))
  | inr miss ↦ rw miss (find_entry-append_new s xs e same (rw miss at absent))
]

chains-set_self : (t : Table) (i : ℕ) (es : List Entry) → (set_chain t i es).chains i ≡ es
unfolding set_chain
chains-set_self t i es = rw (eq→== i i refl) refl

chains-set_ne :
    (t : Table) (i j : ℕ) (es : List Entry) → j ≢ i → (set_chain t i es).chains j ≡ t.chains j
unfolding set_chain
chains-set_ne t i j es ne = rw (ne→== j i ne) refl

-- A chain that grows at its end loses no name.
lookup-grown :
    (t : Table) (s : List ℕ) (i : ℕ) (e : Entry) {y : ℕ}
    → lookup t s ≡ some y
    → lookup (set_chain t i (t.chains i ++ (e ∷ []))) s ≡ some y
lookup-grown t s i e found = elim (ℕ_discrete (chain_of s) i) [
  | yes same ↦
      ap (find_entry s) (
        ap (set_chain t i (t.chains i ++ (e ∷ []))).chains same
        ∙ chains-set_self t i (t.chains i ++ (e ∷ []))
        ∙ ap (λ j. t.chains j ++ (e ∷ [])) (sym same))
      ∙ find_entry-append s (t.chains (chain_of s)) e found
  | no other ↦
      ap (find_entry s) (chains-set_ne t i (chain_of s) (t.chains i ++ (e ∷ [])) other) ∙ found
]

-- A name that stands for a symbol stands for it still, whatever other name is interned, predefined
-- or not.
pub lookup-dogensym :
    (t : Table) (s s' : List ℕ) (oldsym : Option ℕ) {y : ℕ}
    → lookup t s ≡ some y
    → lookup (dogensym t s' oldsym).0 s ≡ some y
unfolding dogensym
lookup-dogensym t s s' oldsym found = elim (Option-cases (lookup t s')) [
  | inr (z, known) ↦ rw (known, dogensym) found
  | inl absent ↦ elim (Option-cases oldsym) [
    | inr (z, given) ↦ rw (absent, dogensym) (rw given (lookup-grown t s (chain_of s') _ found))
    | inl fresh ↦ rw (absent, dogensym) (rw fresh (lookup-grown t s (chain_of s') _ found))
  ]
]

-- What `_pdp_dogensym` gives is what the name stands for from then on.
pub lookup-dogensym_self :
    (t : Table) (s : List ℕ) (oldsym : Option ℕ)
    → lookup (dogensym t s oldsym).0 s ≡ some (dogensym t s oldsym).1
unfolding dogensym
lookup-dogensym_self t s oldsym = elim (Option-cases (lookup t s)) [
  | inr (z, known) ↦ rw (known, dogensym) known
  | inl absent ↦ elim (Option-cases oldsym) [
    | inr (z, given) ↦ rw (absent, dogensym) (rw given (added _ refl absent))
    | inl fresh ↦ rw (absent, dogensym) (rw fresh (added _ refl absent))
  ]
]
  where
    added :
        (e : Entry)
        → e.name ≡ s
        → lookup t s ≡ none
        → find_entry s
            ((set_chain t (chain_of s) (t.chains (chain_of s) ++ (e ∷ []))).chains (chain_of s))
          ≡ some e.symbol
    added e same absent =
        ap (find_entry s) (chains-set_self t (chain_of s) _)
        ∙ find_entry-append_new s (t.chains (chain_of s)) e same absent

known_symbol :
    (t : Table) (s : List ℕ) (oldsym : Option ℕ) {y : ℕ}
    → lookup t s ≡ some y
    → dogensym t s oldsym ≡ (t, y)
unfolding dogensym
known_symbol t s oldsym known = rw (known, dogensym) refl

-- Interning a name, then another one, then the first again gives the first symbol again and leaves
-- the table alone.
pub gensym-gensym :
    (t : Table) (s s' : List ℕ)
    → let (t', y) = gensym t s in gensym (gensym t' s').0 s ≡ ((gensym t' s').0, y)
unfolding gensym
gensym-gensym t s s' =
    known_symbol _ s none
      (lookup-dogensym (dogensym t s none).0 s s' none (lookup-dogensym_self t s none))
