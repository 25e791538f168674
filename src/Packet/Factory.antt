-- ===== src/Packet/Factory.antt =====
-- Creating packets and bringing unused ones back: system/kernel/pdp_packet.c from
-- `_pdp_pool_expand_nolock` to `pdp_packet_reuse`, and `pdp_factory_newpacket`.
use pdp.Base.{
  ℕ, zero, suc, ◌+◌, ◌%◌, ◌^◌, Bool, true, false, not, ◌&&◌, ◌||◌, Option, none, some, List, [],
  ◌∷◌, ◌++◌, ◌==◌, if◌then◌else◌, length, replicate, Outcome, ok, fault,
}
use pdp.Packet.{Header, Pool, Class, Env, header_size, info_size, header, put, set_fifo}

-- `_pdp_pool_expand_nolock`: twice the slots, the new ones empty.
unfoldable pub expand : Pool → Pool
expand pool = record pool { slots = pool.slots ++ replicate (length pool.slots) none }

-- `_pdp_packet_alloc_nolock`
unfoldable pub alloc_packet : Env → ℕ → ℕ → Option Header
alloc_packet env datatype datasize =
    let total = (datasize + header_size) % 2 ^ 32 in
    elim (env.alloc total) [
      | none ↦ none
      | some bytes ↦ some (record {
        type = datatype;
        desc = none;
        size = total;
        flags = 0;
        users = 1;
        theclass = none;
        info = replicate info_size 0;
        body = bytes;
      })
    ]

-- The first slot from `p` on that passes the test.
unfoldable pub find_from : (Option Header → Bool) → ℕ → List (Option Header) → Option ℕ
find_from test p [] = none
find_from test p (s ∷ ss) = let rest = find_from test (suc p) ss in if test s then some p else rest

abbrev pub is_free : Option Header → Bool
is_free none = true
is_free (some h) = false

-- `_pdp_packet_create_nolock`, with the turns that are left of its endless loop. The scan goes on
-- in the slots that the pool has grown by, which is where the first empty one then is.
unfoldable pub create_loop : ℕ → Env → Pool → ℕ → ℕ → Outcome (Pool × Option ℕ)
unfolding expand put
create_loop zero env pool datatype datasize = fault
create_loop (suc turns) env pool datatype datasize =
    let grown = create_loop turns env (expand pool) datatype datasize in
    elim (find_from is_free 0 pool.slots) [
      | none ↦ grown
      | some p ↦ elim (alloc_packet env datatype datasize) [
        | none ↦ ok (pool, none)
        | some h ↦ ok (put pool p (some h), some p)
      ]
    ]

-- `pdp_packet_create`: two turns are enough where there is a slot at all.
unfoldable pub create : Env → Pool → ℕ → ℕ → Outcome (Pool × Option ℕ)
create env pool datatype datasize = create_loop 2 env pool datatype datasize

-- `header->theclass && header->theclass->cleanup`
unfoldable pub has_cleanup : Env → Header → Bool
has_cleanup env h = elim h.theclass [ none ↦ false | some c ↦ (env.class_of c).has_cleanup ]

-- The tests of `pdp_packet_new` on a slot.
unfoldable pub is_reapable : Env → ℕ → Option Header → Bool
is_reapable env datasize none = false
is_reapable env datasize (some h) =
    h.users == 0 && h.size == (datasize + header_size) % 2 ^ 32 && not (has_cleanup env h)

-- What `pdp_packet_new` makes of the packet that it takes over.
unfoldable pub reinit : ℕ → ℕ → Header → Header
reinit datatype datasize h = record {
  type = datatype;
  desc = none;
  size = (datasize + header_size) % 2 ^ 32;
  flags = 0;
  users = 1;
  theclass = none;
  info = replicate info_size 0;
  body = h.body;
}

abbrev pub map_slot : (Header → Header) → Pool → ℕ → Pool
map_slot f pool p = elim (header pool p) [ none ↦ pool | some h ↦ put pool p (some (f h)) ]

-- `pdp_packet_new`
unfoldable pub new : Env → Pool → ℕ → ℕ → Outcome (Pool × Option ℕ)
unfolding header
new env pool datatype datasize = elim (find_from (is_reapable env datasize) 0 pool.slots) [
  | none ↦ create env pool datatype datasize
  | some p ↦ ok (map_slot (reinit datatype datasize) pool p, some p)
]

unfoldable pub member : ℕ → List ℕ → Bool
member p [] = false
member p (q ∷ qs) = q == p || member p qs

-- `_pdp_packet_save_nolock`: `pdp_list_add` puts the packet at the front.
unfoldable pub save : Pool → ℕ → Outcome Pool
save pool packet = elim (header pool packet) [
  | none ↦ fault
  | some h ↦ elim h.desc [
    | none ↦ fault
    | some s ↦ elim (h.users == 0) [
      | false ↦ fault
      | true ↦
          ok
            (if member packet (pool.fifos s) then pool else set_fifo pool s (packet ∷ pool.fifos s))
    ]
  ]
]

-- The loop of `pdp_packet_reuse`, for the turns that the fifo has packets. A packet that is gone, or
-- that is without a description, is dereferenced all the same.
unfoldable pub reuse_loop : ℕ → Env → Pool → ℕ → Outcome (Pool × Option ℕ)
reuse_loop zero env pool type = ok (pool, none)
reuse_loop (suc turns) env pool type = elim (pool.fifos type) [
  | [] ↦ ok (pool, none)
  | p ∷ ps ↦
      let popped = set_fifo pool type ps in
      elim (header popped p) [
        | none ↦ fault
        | some h ↦ elim (h.users == 0) [
          | false ↦ reuse_loop turns env popped type
          | true ↦ elim h.desc [
            | none ↦ fault
            | some d ↦ elim (env.match_desc d type) [
              | true ↦ ok (put popped p (some (record h { users = 1 })), some p)
              | false ↦ elim (save popped p) [
                | fault ↦ fault
                | ok saved ↦ reuse_loop turns env saved type
              ]
            ]
          ]
        ]
      ]
]

-- The `wakeup` method of the packet's class.
unfoldable pub wake : Env → Header → Header
wake env h = elim h.theclass [
  | none ↦ h
  | some c ↦ elim (env.class_of c).wakeup [ none ↦ h | some method ↦ method h ]
]

-- `pdp_packet_reuse`
unfoldable pub reuse : Env → Pool → Option ℕ → Outcome (Pool × Option ℕ)
reuse env pool none = ok (pool, none)
reuse env pool (some type) = elim (reuse_loop (length (pool.fifos type)) env pool type) [
  | fault ↦ fault
  | ok (pool', none) ↦ ok (pool', none)
  | ok (pool', some p) ↦ ok (map_slot (wake env) pool' p, some p)
]

-- The constructor of the first class whose type matches.
unfoldable pub find_class : Env → ℕ → List Class → Option Class
find_class env type [] = none
find_class env type (c ∷ cs) =
    let rest = find_class env type cs in
    elim c.type [ none ↦ rest | some t ↦ if env.match_desc type t then some c else rest ]

-- `pdp_factory_newpacket`
unfoldable pub newpacket : Env → Pool → ℕ → Outcome (Pool × Option ℕ)
newpacket env pool type = elim (reuse env pool (some type)) [
  | fault ↦ fault
  | ok (pool', some p) ↦ ok (pool', some p)
  | ok (pool', none) ↦ elim (find_class env type env.class_list) [
    | none ↦ ok (pool', none)
    | some c ↦ elim c.create [ none ↦ ok (pool', none) | some make ↦ ok (make type pool') ]
  ]
]

-- `pdp_class_new`: a class without other methods than its constructor, at the front of the list.
unfoldable pub class_new : Env → ℕ → Option (ℕ → Pool → Pool × Option ℕ) → Env
class_new env type make =
    let c : Class = record {
      wakeup = none;
      copy = none;
      has_cleanup = false;
      sleep = none;
      type = some type;
      create = make;
    } in
    record env { class_list = c ∷ env.class_list }

-- `pdp_packet_destroy`: the handles that it frees, from `i` on, up to the first empty slot.
unfoldable pub destroy_from : ℕ → List (Option Header) → List ℕ
destroy_from i [] = []
destroy_from i (none ∷ ss) = []
destroy_from i (some h ∷ ss) = i ∷ destroy_from (suc i) ss
