-- ===== src/LinkedList.antt =====
-- The lists of system/kernel/pdp_list.c: atoms in a heap, each with a pointer to the next one, and
-- a header with the number of elements, the first atom and the last one. `none` is NULL.
pub mod Operations
pub mod Segment
pub mod Ends
pub mod Splice
pub mod Search
mod Tests
use pdp.Base.{
  ℕ, zero, suc, ◌+◌, ◌-◌, ◌%◌, ◌^◌, Bool, true, false, ◌&&◌, Option, none, some, List, [], ◌∷◌,
  ◌++◌, ◌==◌, if◌then◌else◌, Outcome, ok, fault,
}

-- `t_pdp_word_type`
pub data WordType : Type 0 where
  a_undef a_pointer a_float a_int a_symbol a_packet a_list a_atom_pointer : WordType
  a_forthword a_vmword a_vmmacro : WordType

-- The numbers of the enumeration.
abbrev pub type_code : WordType → ℕ
type_code a_undef = 0
type_code a_pointer = 1
type_code a_float = 2
type_code a_int = 3
type_code a_symbol = 4
type_code a_packet = 5
type_code a_list = 6
type_code a_atom_pointer = 7
type_code a_forthword = 8
type_code a_vmword = 9
type_code a_vmmacro = 10

-- What an atom carries: the 64 bits of its word, and their type.
pub record Item : Type 0 where
  pub w : ℕ
  pub t : WordType

-- `t_pdp_atom`
pub record Atom : Type 0 where
  pub next : Option ℕ
  pub item : Item

-- `t_pdp_list`
pub record LinkedList : Type 0 where
  pub elements : ℕ
  pub first : Option ℕ
  pub last : Option ℕ

abbrev pub Heap : Type 0
Heap = ℕ → Option Atom

-- One address written: `some a` fills it, `none` gives the atom back to the allocator.
unfoldable pub write : Heap → ℕ → Option Atom → Heap
write h p c q = if q == p then c else h q

-- `*p`
unfoldable pub load : Heap → Option ℕ → Outcome Atom
load h none = fault
load h (some p) = elim (h p) [ none ↦ fault | some a ↦ ok a ]

-- `p->next = q`
unfoldable pub set_next : Heap → Option ℕ → Option ℕ → Outcome Heap
set_next h none q = fault
set_next h (some p) q = elim (h p) [
  | none ↦ fault
  | some a ↦ ok (write h p (some (record a { next = q })))
]

-- `a->w.w_int == w.w_int && a->t == t`: the words agree in their lower 32 bits.
unfoldable pub same_item : Item → Item → Bool
same_item a b = a.w % 2 ^ 32 == b.w % 2 ^ 32 && type_code a.t == type_code b.t
