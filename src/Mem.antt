-- ===== src/Mem.antt =====
-- The atom allocator of system/kernel/pdp_mem.c. An atom is the number of its first byte; the free list
-- is the list of the atoms that its links run through. A link takes the first `link_size` bytes of its atom.
pub mod Fresh
mod Tests
use pdp.Base.{
  ℕ, zero, suc, ◌+◌, ◌*◌, ◌%◌, ◌^◌, Bool, true, false, List, [], ◌∷◌, ltb, if◌then◌else◌,
}

-- `t_pdp_fastalloc` without its mutex.
pub record Fastalloc : Type 0 where
  pub freelist : List ℕ
  pub atom_size : ℕ
  pub block_elements : ℕ

-- `sizeof(t_fastalloc)`, one pointer of 64 bits.
abbrev pub link_size : ℕ
link_size = 8

-- `pdp_fastalloc_new` of an `unsigned int`, with the `PDP_FASTALLOC_BLOCK_ELEMENTS` that pdp_mem.c is compiled with.
unfoldable pub fastalloc_new : ℕ → ℕ → Fastalloc
fastalloc_new elements size = record {
  freelist = [];
  atom_size = if ltb (size % 2 ^ 32) link_size then link_size else size % 2 ^ 32;
  block_elements = elements;
}

-- The links through a block: `n` atoms from `atom` on.
unfoldable pub link_atoms : ℕ → ℕ → ℕ → List ℕ
link_atoms size atom zero = []
link_atoms size atom (suc n) = atom ∷ link_atoms size (atom + size) n

-- The bytes that the allocator asks `pdp_alloc` for, in `unsigned int`.
abbrev pub block_bytes : Fastalloc → ℕ
block_bytes x = x.block_elements * x.atom_size % 2 ^ 32

-- `_pdp_fastalloc_refill_freelist`, with the block of `block_bytes` bytes that `pdp_alloc` gives. The links
-- go through all elements, whatever the size of the block is.
unfoldable pub refill : Fastalloc → ℕ → Fastalloc
refill x block = record x { freelist = link_atoms x.atom_size block x.block_elements }

-- The first atom of the free list taken off; there is one.
abbrev pub take_atom : Fastalloc → Fastalloc × ℕ
take_atom x = elim x.freelist [ [] ↦ (x, 0) | atom ∷ rest ↦ (record x { freelist = rest }, atom) ]

-- `pdp_fastalloc_new_atom`: with a block of at least one atom the loop refills at most once.
unfoldable pub new_atom : Fastalloc → ℕ → Fastalloc × ℕ
unfolding refill
new_atom x block = elim x.freelist [ [] ↦ take_atom (refill x block) | atom ∷ rest ↦ take_atom x ]

-- `pdp_fastalloc_save_atom`
unfoldable pub save_atom : Fastalloc → ℕ → Fastalloc
save_atom x atom = record x { freelist = atom ∷ x.freelist }
