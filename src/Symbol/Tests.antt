-- ===== src/Symbol/Tests.antt =====
-- The symbol table: a run, and interning at concrete names.
use pdp.Base.{Bool, true, false, Outcome, ok, fault, ◌≡◌, refl, none, some, [], ◌∷◌}
use pdp.Symbol.{
  symbol_setup, define_all, define_symbol, same_name, set_chain, Table, dogensym, find_entry,
  gensym, hash_from, chain_of,
}
use pdp.Symbol.Intern.{lookup, lookup-dogensym, lookup-dogensym_self}

abbrev empty : Table
empty = record { chains = λ i. []; next = 0 }

hash_example : chain_of (b'a' ∷ b'b' ∷ []) ≡ 292
unfolding chain_of hash_from
hash_example = refl

abbrev with_a : Table
with_a = (gensym empty (b'a' ∷ [])).0

a_known : lookup with_a (b'a' ∷ []) ≡ some 0
unfolding gensym dogensym find_entry
a_known = lookup-dogensym_self empty (b'a' ∷ []) none

lookup-dogensym_example : lookup (dogensym with_a (b'b' ∷ []) none).0 (b'a' ∷ []) ≡ some 0
lookup-dogensym_example = lookup-dogensym with_a (b'a' ∷ []) (b'b' ∷ []) none a_known

abbrev succeeds : Outcome Table → Bool
succeeds (ok t) = true
succeeds fault = false

setup_succeeds : succeeds symbol_setup ≡ true
unfolding symbol_setup define_all define_symbol dogensym chain_of hash_from find_entry same_name
    set_chain
setup_succeeds = refl
