-- ===== src/Mem/Tests.antt =====
-- The allocator: three atoms from blocks of two, one of them given back.
use pdp.Base.{◌≡◌, arith, refl, [], ◌∷◌}
use pdp.Mem.{Fastalloc, fastalloc_new, link_atoms, new_atom, save_atom}
use pdp.Mem.Fresh.{Reach, opened, taken, saved, Sound, Reach-Sound}

abbrev atoms_of_eight : Fastalloc
atoms_of_eight = fastalloc_new 2 6

one_taken : Reach 8 1 (new_atom atoms_of_eight 100).0 ((new_atom atoms_of_eight 100).1 ∷ [])
unfolding fastalloc_new
one_taken = taken (opened 6 refl) 100 tt

first_atom : new_atom atoms_of_eight 100 ≡ (record atoms_of_eight { freelist = 108 ∷ [] }, 100)
unfolding fastalloc_new new_atom link_atoms
first_atom = refl

Reach-Sound_example :
    Sound 8 1 (save_atom (new_atom atoms_of_eight 100).0 (new_atom atoms_of_eight 100).1) []
Reach-Sound_example =
    Reach-Sound 8 1 (omega arith) (saved [] [] (new_atom atoms_of_eight 100).1 one_taken)
