-- ===== src/LinkedList/Tests.antt =====
-- The lists at a few atoms: runs, and the theorems at concrete inputs.
use pdp.Base.{ℕ, ◌≡◌, ◌≢◌, refl, arith, true, false, none, some, [], ◌∷◌, ◌==◌, ok}
use pdp.LinkedList.{a_int, Item, LinkedList, Heap, write, same_item}
use pdp.LinkedList.Operations.{add, pop_push, remove, reverse, clear}
use pdp.LinkedList.Segment.{Cells, Apart, here, linked, IsList}
use pdp.LinkedList.Ends.{Gives, add-Gives}
use pdp.LinkedList.Splice.{reverse_onto, reverse-Gives, Clears, clear-Clears, pop_push-last}
use pdp.LinkedList.Search.{without, remove-Gives}

abbrev number : ℕ → Item
number n = record { w = n; t = a_int }

-- Atoms 10 and 11 linked to a list, atom 20 alone.
abbrev two_lists : Heap
two_lists p = elim (p == 10) [
  | true ↦ some (record { next = some 11; item = number 7 })
  | false ↦ elim (p == 11) [
    | true ↦ some (record { next = none; item = number 8 })
    | false ↦ elim (p == 20) [
      | true ↦ some (record { next = none; item = number 9 })
      | false ↦ none
    ]
  ]
]

abbrev seven_eight : LinkedList
seven_eight = record { elements = 2; first = some 10; last = some 11 }

abbrev nine : LinkedList
nine = record { elements = 1; first = some 20; last = some 20 }

abbrev two_cells : Cells
two_cells = (10, number 7) ∷ (11, number 8) ∷ []

seven_eight-IsList : IsList two_lists seven_eight two_cells
seven_eight-IsList = record {
  chain = linked refl refl (linked refl refl here);
  count = refl;
  end = refl;
}

nine-IsList : IsList two_lists nine ((20, number 9) ∷ [])
nine-IsList = record { chain = linked refl refl here; count = refl; end = refl }

two_cells-Apart : Apart two_cells ((20, number 9) ∷ [])
two_cells-Apart a inside = ground arith

add-Gives_example :
    Gives two_lists
      (add two_lists seven_eight 30 (number 1))
      ((30, number 1) ∷ two_cells)
      ((30, number 1) ∷ [])
add-Gives_example = add-Gives two_lists seven_eight 30 (number 1) seven_eight-IsList refl

reverse-Gives_example :
    Gives two_lists (reverse two_lists seven_eight) (reverse_onto two_cells []) two_cells
reverse-Gives_example = reverse-Gives two_lists seven_eight two_cells seven_eight-IsList

clear-Clears_example : Clears two_lists (clear two_lists seven_eight) two_cells
clear-Clears_example = clear-Clears two_lists seven_eight two_cells seven_eight-IsList

remove-Gives_example :
    Gives two_lists
      (remove two_lists seven_eight (number 8))
      (without two_cells (number 8))
      two_cells
remove-Gives_example = remove-Gives two_lists seven_eight (number 8) seven_eight-IsList

eight_goes : without two_cells (number 8) ≡ (10, number 7) ∷ []
unfolding same_item
eight_goes = refl

abbrev after_move : Heap
after_move = write two_lists 10 (some (record { next = some 20; item = number 7 }))

abbrev moved_from : LinkedList
moved_from = record { elements = 1; first = some 11; last = none }

abbrev moved_to : LinkedList
moved_to = record { elements = 2; first = some 10; last = some 10 }

move_one : pop_push two_lists seven_eight nine ≡ ok (after_move, moved_from, moved_to)
unfolding pop_push
move_one = refl

pop_push-last_example : (moved_from.last ≡ none) × (moved_from.first ≢ none)
pop_push-last_example =
    pop_push-last two_lists seven_eight nine (10, number 7) (11, number 8) [] seven_eight-IsList
      move_one
