-- ===== src/LinkedList/Operations.antt =====
-- The operations of system/kernel/pdp_list.c that stay at the top level of a list. A new atom's address
-- comes from the atom allocator and is an argument; it is never NULL.
use pdp.Base.{
  ℕ, zero, suc, ◌+◌, ◌-◌, Bool, true, false, Option, none, some, List, [], ◌∷◌, ◌==◌, if◌then◌else◌,
  Outcome, ok, fault,
}
use pdp.LinkedList.{Item, LinkedList, Heap, write, load, set_next, same_item}

-- A header with no atoms, as `pdp_list_new(0)` makes it.
abbrev pub empty_list : LinkedList
empty_list = record { elements = 0; first = none; last = none }

-- `pdp_list_add_atom`
unfoldable pub add_atom : Heap → LinkedList → ℕ → Outcome (Heap × LinkedList)
add_atom h l a = elim (set_next h (some a) l.first) [
  | fault ↦ fault
  | ok h' ↦ ok (
    h',
    record {
      elements = suc l.elements;
      first = some a;
      last = elim l.last [ none ↦ some a | some e ↦ some e ];
    },
  )
]

-- An atom from the allocator, with its word and type set.
abbrev pub fill : Heap → ℕ → Item → Heap
fill h a item = write h a (some (record { next = none; item = item }))

-- `pdp_list_add`
unfoldable pub add : Heap → LinkedList → ℕ → Item → Outcome (Heap × LinkedList)
add h l a item = add_atom (fill h a item) l a

-- `pdp_list_add_back_atom`
unfoldable pub add_back_atom : Heap → LinkedList → ℕ → Outcome (Heap × LinkedList)
add_back_atom h l a = elim (set_next h (some a) none) [
  | fault ↦ fault
  | ok cut ↦ elim l.last [
    | none ↦ ok (cut, record { elements = suc l.elements; first = some a; last = some a })
    | some e ↦ elim (set_next cut (some e) (some a)) [
      | fault ↦ fault
      | ok linked ↦ ok (linked, record l { elements = suc l.elements; last = some a })
    ]
  ]
]

-- `pdp_list_add_back`
unfoldable pub add_back : Heap → LinkedList → ℕ → Item → Outcome (Heap × LinkedList)
add_back h l a item = add_back_atom (fill h a item) l a

-- `pdp_list_pop_atom`: the atom, if there was one.
unfoldable pub pop_atom : Heap → LinkedList → Outcome (Heap × LinkedList × Option ℕ)
pop_atom h l = elim l.first [
  | none ↦ ok (h, l, none)
  | some p ↦ elim (h p) [
    | none ↦ fault
    | some a ↦ ok (
      write h p (some (record a { next = none })),
      record {
        elements = l.elements - 1;
        first = a.next;
        last = elim a.next [ none ↦ none | some q ↦ l.last ];
      },
      some p,
    )
  ]
]

-- `pdp_list_pop`: an empty list makes it read through NULL.
unfoldable pub pop : Heap → LinkedList → Outcome (Heap × LinkedList × Item)
pop h l = elim (pop_atom h l) [
  | fault ↦ fault
  | ok (h', l', none) ↦ fault
  | ok (h', l', some p) ↦ elim (h' p) [ none ↦ fault | some a ↦ ok (write h' p none, l', a.item) ]
]

-- `pdp_list_pop_push`, for a source and a destination that are two lists.
unfoldable pub pop_push : Heap → LinkedList → LinkedList → Outcome (Heap × LinkedList × LinkedList)
pop_push h source dest = elim source.first [
  | none ↦ fault
  | some p ↦ elim (h p) [
    | none ↦ fault
    | some a ↦
        let n = source.elements - 1 in
        ok (
          write h p (some (record a { next = dest.first })),
          record { elements = n; first = a.next; last = if n == 0 then source.last else none },
          record {
            elements = suc dest.elements;
            first = some p;
            last = if dest.elements == 0 then dest.last else some p;
          },
        )
  ]
]

-- The loop of `pdp_list_index`.
unfoldable pub index_from : Heap → Option ℕ → ℕ → Outcome Item
index_from h p zero = elim (load h p) [ fault ↦ fault | ok a ↦ ok a.item ]
index_from h p (suc i) = elim (load h p) [ fault ↦ fault | ok a ↦ index_from h a.next i ]

-- `pdp_list_index`
unfoldable pub index : Heap → LinkedList → ℕ → Outcome Item
index h l i = index_from h l.first i

-- The loop of `pdp_list_contains`, with the turns that are left.
unfoldable pub contains_from : ℕ → Heap → Option ℕ → Item → Outcome Bool
contains_from zero h p item = fault
contains_from (suc n) h none item = ok false
contains_from (suc n) h (some p) item = elim (h p) [
  | none ↦ fault
  | some a ↦
      let rest = contains_from n h a.next item in if same_item a.item item then ok true else rest
]

-- `pdp_list_contains`
unfoldable pub contains : Heap → LinkedList → Item → Outcome Bool
contains h l item = contains_from (suc l.elements) h l.first item

-- `pdp_list_add_to_set`
unfoldable pub add_to_set : Heap → LinkedList → ℕ → Item → Outcome (Heap × LinkedList)
add_to_set h l a item = elim (contains h l item) [
  | fault ↦ fault
  | ok true ↦ ok (h, l)
  | ok false ↦ add h l a item
]

-- The loop of `pdp_list_remove`, with the turns that are left: `prev` is the atom before the next one to
-- look at, or NULL for the head on the stack.
unfoldable pub remove_from :
    ℕ → Heap → LinkedList → Option ℕ → Option ℕ → Item → Outcome (Heap × LinkedList)
remove_from zero h l prev p item = fault
remove_from (suc n) h l prev none item = ok (h, l)
remove_from (suc n) h l prev (some p) item = elim (h p) [
  | none ↦ fault
  | some a ↦
      let rest = remove_from n h l (some p) a.next item in
      let last : Option ℕ = elim l.last [
        | none ↦ none
        | some e ↦ if e == p then prev else some e
      ] in
      elim (same_item a.item item) [
        | false ↦ rest
        | true ↦ elim prev [
          | none ↦
              ok (write h p none, record { elements = l.elements - 1; first = a.next; last = last })
          | some b ↦ elim (set_next h (some b) a.next) [
            | fault ↦ fault
            | ok h' ↦ ok (write h' p none, record l { elements = l.elements - 1; last = last })
          ]
        ]
      ]
]

-- `pdp_list_remove`
unfoldable pub remove : Heap → LinkedList → Item → Outcome (Heap × LinkedList)
remove h l item = remove_from (suc l.elements) h l none l.first item

-- `pdp_list_join`: `tail`'s header goes back to its allocator.
unfoldable pub join : Heap → LinkedList → LinkedList → Outcome (Heap × LinkedList)
join h l tail = if tail.elements == 0 then ok (h, l) else elim l.last [
  | none ↦
      ok (h, record { elements = l.elements + tail.elements; first = tail.first; last = tail.last })
  | some e ↦ elim (set_next h (some e) tail.first) [
    | fault ↦ fault
    | ok h' ↦
        ok (h', record { elements = l.elements + tail.elements; first = l.first; last = tail.last })
  ]
]

-- The loop of `pdp_list_reverse`, with the turns that are left.
unfoldable pub reverse_loop : ℕ → Heap → LinkedList → LinkedList → Outcome (Heap × LinkedList)
reverse_loop zero h tmp l = fault
reverse_loop (suc n) h tmp l = elim (pop_atom h tmp) [
  | fault ↦ fault
  | ok (h', tmp', none) ↦ ok (h', l)
  | ok (h', tmp', some a) ↦ elim (add_atom h' l a) [
    | fault ↦ fault
    | ok (h'', l') ↦ reverse_loop n h'' tmp' l'
  ]
]

-- `pdp_list_reverse`
unfoldable pub reverse : Heap → LinkedList → Outcome (Heap × LinkedList)
reverse h l = reverse_loop (suc l.elements) h l empty_list

-- The loop of `pdp_list_clear`, with the turns that are left.
unfoldable pub clear_from : ℕ → Heap → Option ℕ → Outcome Heap
clear_from zero h p = fault
clear_from (suc n) h none = ok h
clear_from (suc n) h (some p) = elim (h p) [
  | none ↦ fault
  | some a ↦ clear_from n (write h p none) a.next
]

-- `pdp_list_clear`
unfoldable pub clear : Heap → LinkedList → Outcome (Heap × LinkedList)
clear h l = elim (clear_from (suc l.elements) h l.first) [
  | fault ↦ fault
  | ok h' ↦ ok (h', empty_list)
]

-- The loop of `pdp_list_copy_reverse`: the atoms of the new list are at the given addresses.
unfoldable pub copy_reverse_from :
    Heap → Option ℕ → LinkedList → List ℕ → Outcome (Heap × LinkedList)
copy_reverse_from h p new [] = elim p [ none ↦ ok (h, new) | some q ↦ fault ]
copy_reverse_from h p new (a ∷ fresh) = elim p [
  | none ↦ ok (h, new)
  | some q ↦ elim (h q) [
    | none ↦ fault
    | some atom ↦ elim (add h new a atom.item) [
      | fault ↦ fault
      | ok (h', new') ↦ copy_reverse_from h' atom.next new' fresh
    ]
  ]
]

-- `pdp_list_copy_reverse`, for as many addresses as the allocator has to give.
unfoldable pub copy_reverse : Heap → LinkedList → List ℕ → Outcome (Heap × LinkedList)
copy_reverse h l fresh = copy_reverse_from h l.first empty_list fresh
