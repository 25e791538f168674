-- ===== src/Symbol.antt =====
-- The symbol table of system/kernel/pdp_symbol.c. A name is the list of its bytes, a symbol is the
-- number of its allocation, or of the predefined variable that it is.
pub mod Intern
mod Tests
use pdp.Base.{
  ℕ, zero, suc, ◌+◌, ◌-◌, ◌%◌, ◌^◌, Bool, true, false, not, ◌&&◌, ◌||◌, Option, none, some, List,
  [], ◌∷◌, ◌++◌, ◌==◌, leb, if◌then◌else◌, Outcome, ok, fault,
}

-- `strcmp` is zero.
unfoldable pub same_name : List ℕ → List ℕ → Bool
same_name [] [] = true
same_name [] (d ∷ ds) = false
same_name (c ∷ cs) [] = false
same_name (c ∷ cs) (d ∷ ds) = c == d && same_name cs ds

-- What the table keeps of a symbol: its name, which symbol it is, and its parsed type list.
pub record Entry : Type 0 where
  pub name : List ℕ
  pub symbol : ℕ
  pub typelist : Option (List ℕ)

-- `pdp_symhash`, a chain for each hash, and the next number that is free.
pub record Table : Type 0 where
  pub chains : ℕ → List Entry
  pub next : ℕ

-- A byte above 127 is negative as a char.
abbrev pub as_char : ℕ → ℕ
as_char c = if leb 128 c then c + 2 ^ 32 - 256 else c

-- The two sums over the name, `hash1` and `hash2`.
unfoldable pub hash_from : ℕ → ℕ → List ℕ → ℕ
hash_from hash1 hash2 [] = hash2
hash_from hash1 hash2 (c ∷ cs) =
    let sum = (hash1 + as_char c) % 2 ^ 32 in hash_from sum ((hash2 + sum) % 2 ^ 32) cs

-- The chain that a name belongs to: `hash2 & (HASHSIZE - 1)` with 1024 chains.
unfoldable pub chain_of : List ℕ → ℕ
chain_of s = hash_from 0 0 s % 1024

-- The scan of one chain.
unfoldable pub find_entry : List ℕ → List Entry → Option ℕ
find_entry s [] = none
find_entry s (e ∷ es) =
    let rest = find_entry s es in if same_name e.name s then some e.symbol else rest

unfoldable pub set_chain : Table → ℕ → List Entry → Table
set_chain t i es = record t { chains = λ j. if j == i then es else t.chains j }

-- `_pdp_dogensym`: a new entry goes to the end of its chain, for the given symbol or a fresh one.
unfoldable pub dogensym : Table → List ℕ → Option ℕ → Table × ℕ
dogensym t s oldsym =
    let i = chain_of s in
    elim (find_entry s (t.chains i)) [
      | some y ↦ (t, y)
      | none ↦ elim oldsym [
        | some y ↦
            (set_chain t i (t.chains i ++ record { name = s; symbol = y; typelist = none } ∷ []), y)
        | none ↦ (
          record (set_chain t i
              (t.chains i ++ record { name = s; symbol = t.next; typelist = none } ∷ [])) {
                next = suc t.next;
              },
          t.next,
        )
      ]
    ]

-- `pdp_gensym`
unfoldable pub gensym : Table → List ℕ → Table × ℕ
unfolding dogensym
gensym t s = dogensym t s none

-- `pdp_symbol_set_typelist` on one chain: only a symbol without a list gets one.
unfoldable pub set_typelist : ℕ → List ℕ → List Entry → List Entry × Bool
set_typelist y l [] = ([], false)
set_typelist y l (e ∷ es) =
    let rest = set_typelist y l es in
    if e.symbol == y
    then elim e.typelist [
      | none ↦ (record e { typelist = some l } ∷ es, true)
      | some old ↦ (e ∷ es, false)
    ]
    else (e ∷ rest.0, rest.1)

-- The names that `pdp_symbol_setup` interns, in its order.
abbrev pub predefined : List (List ℕ)
predefined =
    (b'*' ∷ [])
    ∷ (b'f' ∷ b'l' ∷ b'o' ∷ b'a' ∷ b't' ∷ [])
    ∷ (b'i' ∷ b'n' ∷ b't' ∷ [])
    ∷ (b's' ∷ b'y' ∷ b'm' ∷ b'b' ∷ b'o' ∷ b'l' ∷ [])
    ∷ (b'p' ∷ b'a' ∷ b'c' ∷ b'k' ∷ b'e' ∷ b't' ∷ [])
    ∷ (b'p' ∷ b'o' ∷ b'i' ∷ b'n' ∷ b't' ∷ b'e' ∷ b'r' ∷ [])
    ∷ (b'i' ∷ b'n' ∷ b'v' ∷ b'a' ∷ b'l' ∷ b'i' ∷ b'd' ∷ [])
    ∷ (b'l' ∷ b'i' ∷ b's' ∷ b't' ∷ [])
    ∷ (b'?' ∷ [])
    ∷ (b'a' ∷ b't' ∷ b'o' ∷ b'm' ∷ [])
    ∷ (b'n' ∷ b'u' ∷ b'l' ∷ b'l' ∷ [])
    ∷ (b'[' ∷ [])
    ∷ (b']' ∷ [])
    ∷ (b'r' ∷ b'e' ∷ b't' ∷ [])
    ∷ (b'n' ∷ b'r' ∷ b'e' ∷ b't' ∷ [])
    ∷ (b':' ∷ [])
    ∷ (b';' ∷ [])
    ∷ (b'i' ∷ b'f' ∷ [])
    ∷ (b't' ∷ b'h' ∷ b'e' ∷ b'n' ∷ [])
    ∷ (b'l' ∷ b'o' ∷ b'c' ∷ b'a' ∷ b'l' ∷ [])
    ∷ (b'f' ∷ b'o' ∷ b'r' ∷ b't' ∷ b'h' ∷ [])
    ∷ (b'c' ∷ b'a' ∷ b'l' ∷ b'l' ∷ [])
    ∷ (b'p' ∷ b'u' ∷ b's' ∷ b'h' ∷ [])
    ∷ (b'p' ∷ b'o' ∷ b'p' ∷ [])
    ∷ []

-- `_sym`: the variable `y` becomes the symbol of the name, which must be new.
unfoldable pub define_symbol : Table → List ℕ → ℕ → Outcome Table
unfolding dogensym
define_symbol t name y =
    let (t', realsym) = dogensym t name (some y) in if realsym == y then ok t' else fault

unfoldable pub define_all : ℕ → List (List ℕ) → Table → Outcome Table
unfolding define_symbol
define_all y [] t = ok t
define_all y (name ∷ names) t = elim (define_symbol t name y) [
  | fault ↦ fault
  | ok t' ↦ define_all (suc y) names t'
]

-- `pdp_symbol_setup`: the variables of the predefined symbols have the numbers from 0 on.
unfoldable pub symbol_setup : Outcome Table
unfolding define_all
symbol_setup = define_all 0 predefined (record { chains = λ i. []; next = 24 })
