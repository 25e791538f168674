-- ===== src/Packet/Handle.antt =====
-- What the users of packets call: system/kernel/pdp_packet.c from `pdp_packet_copy_ro` on.
use pdp.Base.{
  ℕ, ◌+◌, ◌-◌, ◌%◌, ◌^◌, true, false, Option, none, some, ◌++◌, ◌==◌, if◌then◌else◌, ltb, length,
  take, drop, Outcome, ok, fault,
}
use pdp.Packet.{Header, Pool, Env, header_size, header, put, data_size, writable}
use pdp.Packet.Factory.{new, save, reuse, newpacket, map_slot}

-- `pdp_packet_copy_ro`
unfoldable pub copy_ro : Pool → ℕ → Outcome (Pool × Option ℕ)
copy_ro pool handle = elim (header pool handle) [
  | none ↦ ok (pool, none)
  | some h ↦ elim (h.users == 0) [
    | true ↦ fault
    | false ↦ ok (put pool handle (some (record h { users = (h.users + 1) % 2 ^ 32 })), some handle)
  ]
]

-- `memcpy(new_header, header, PDP_HEADER_SIZE)`: all of the header, its users included.
unfoldable pub copy_header : Header → Header → Header
copy_header source target = record source { body = target.body }

-- The way around a missing constructor in `pdp_packet_clone_rw`.
unfoldable pub clone_raw : Env → Pool → Header → Outcome (Pool × Option ℕ)
clone_raw env pool h = elim (new env pool h.type ((h.size + 2 ^ 32 - header_size) % 2 ^ 32)) [
  | fault ↦ fault
  | ok (pool', none) ↦ ok (pool', none)
  | ok (pool', some p) ↦ ok (map_slot (copy_header h) pool' p, some p)
]

-- `pdp_packet_clone_rw`
unfoldable pub clone_rw : Env → Pool → ℕ → Outcome (Pool × Option ℕ)
clone_rw env pool handle = elim (header pool handle) [
  | none ↦ ok (pool, none)
  | some h ↦ elim (h.users == 0) [
    | true ↦ fault
    | false ↦ elim h.desc [
      | none ↦ fault
      | some d ↦ elim (reuse env pool (some d)) [
        | fault ↦ fault
        | ok (pool', some p) ↦ ok (pool', some p)
        | ok (pool', none) ↦ elim (newpacket env pool' d) [
          | fault ↦ fault
          | ok (made, some p) ↦ ok (made, some p)
          | ok (made, none) ↦ clone_raw env made h
        ]
      ]
    ]
  ]
]

-- The `copy` method of the packet's class, if it has one.
unfoldable pub copy_method : Env → Header → Option (Header → Header → Header)
copy_method env h = elim h.theclass [ none ↦ none | some c ↦ (env.class_of c).copy ]

-- `memcpy` of the source's data into the target's, which has to be as long.
unfoldable pub copy_data : Pool → ℕ → ℕ → Outcome Pool
copy_data pool handle target = elim (header pool handle) [
  | none ↦ fault
  | some h ↦ elim (header pool target) [
    | none ↦ fault
    | some h' ↦
        let n = data_size pool handle in
        elim (ltb (length h'.body) n) [
          | true ↦ fault
          | false ↦
              ok (put pool target (some (record h' { body = take n h.body ++ drop n h'.body })))
        ]
  ]
]

-- The second half of `pdp_packet_copy_rw`: the data, by the source's method or verbatim.
unfoldable pub fill_clone : Env → Pool → ℕ → ℕ → Outcome Pool
fill_clone env pool handle target = elim (header pool handle) [
  | none ↦ fault
  | some h ↦ elim (copy_method env h) [
    | none ↦ copy_data pool handle target
    | some method ↦ ok (map_slot (method h) pool target)
  ]
]

-- `pdp_packet_copy_rw`; `PDP_FLAG_DONOTCOPY` is the lowest bit.
unfoldable pub copy_rw : Env → Pool → ℕ → Outcome (Pool × Option ℕ)
copy_rw env pool handle = elim (header pool handle) [
  | none ↦ ok (pool, none)
  | some h ↦ elim (h.flags % 2 == 0) [
    | false ↦ ok (pool, none)
    | true ↦ elim (clone_rw env pool handle) [
      | fault ↦ fault
      | ok (pool', none) ↦ ok (pool', none)
      | ok (pool', some p) ↦ elim (fill_clone env pool' handle p) [
        | fault ↦ fault
        | ok filled ↦ ok (filled, some p)
      ]
    ]
  ]
]

-- The `sleep` method of the packet's class.
unfoldable pub put_to_sleep : Env → Header → Header
put_to_sleep env h = elim h.theclass [
  | none ↦ h
  | some c ↦ elim (env.class_of c).sleep [ none ↦ h | some method ↦ method h ]
]

-- `pdp_packet_mark_unused`
unfoldable pub mark_unused : Env → Pool → ℕ → Outcome Pool
mark_unused env pool handle = elim (header pool handle) [
  | none ↦ ok pool
  | some h ↦ elim (h.users == 0) [
    | true ↦ fault
    | false ↦ elim (ltb 1 h.users) [
      | true ↦ ok (put pool handle (some (record h { users = h.users - 1 })))
      | false ↦
          let asleep = record (put_to_sleep env h) { users = 0 } in
          let pool' = put pool handle (some asleep) in
          elim asleep.desc [ none ↦ ok pool' | some d ↦ save pool' handle ]
    ]
  ]
]

-- `pdp_packet_delete`; what `cleanup` does to the packet ends with the packet.
unfoldable pub delete : Pool → ℕ → Outcome Pool
delete pool handle = elim (header pool handle) [
  | none ↦ fault
  | some h ↦ if h.users == 1 then ok (put pool handle none) else fault
]

-- `pdp_packet_replace_with_writable`: the new handle, and the pool.
unfoldable pub replace_with_writable : Env → Pool → ℕ → Outcome (Pool × Option ℕ)
replace_with_writable env pool handle = elim (writable pool handle) [
  | true ↦ ok (pool, some handle)
  | false ↦ elim (copy_rw env pool handle) [
    | fault ↦ fault
    | ok (pool', p) ↦ elim (mark_unused env pool' handle) [
      | fault ↦ fault
      | ok pool'' ↦ ok (pool'', p)
    ]
  ]
]
