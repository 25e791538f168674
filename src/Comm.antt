-- ===== src/Comm.antt =====
-- How objects hand packets on, puredata/pdp_comm.c: a sender offers a packet to its receivers, each takes a
-- reference or drops it, and the sender lets its own go. A packet variable that holds -1 is `none`.
pub mod Converting
pub mod Passing
mod Tests
use pdp.Base.{
  ℕ, ◌+◌, ◌%◌, ◌^◌, Bool, true, false, Option, none, some, List, [], ◌∷◌, Outcome, ok, fault,
}
use pdp.Packet.{Pool, Env, header}
use pdp.Packet.Handle.{copy_ro, copy_rw, mark_unused}

-- The pool, the packet variables of the receivers in the order in which they are asked, and the count of
-- `pdp_control_notify_drop`.
pub record Patch : Type 0 where
  pub pool : Pool
  pub inlets : List (Option ℕ)
  pub dropped_packets : ℕ

-- `pdp_packet_copy_ro_or_drop` and `pdp_packet_copy_rw_or_drop`: the pool, the variable, and the result.
unfoldable pub copy_ro_or_drop : Pool → Option ℕ → ℕ → Outcome (Pool × Option ℕ × Bool)
copy_ro_or_drop pool (some held) spacket = ok (pool, some held, true)
copy_ro_or_drop pool none spacket = elim (copy_ro pool spacket) [
  | fault ↦ fault
  | ok (pool', p) ↦ ok (pool', p, false)
]

unfoldable pub copy_rw_or_drop : Env → Pool → Option ℕ → ℕ → Outcome (Pool × Option ℕ × Bool)
copy_rw_or_drop env pool (some held) spacket = ok (pool, some held, true)
copy_rw_or_drop env pool none spacket = elim (copy_rw env pool spacket) [
  | fault ↦ fault
  | ok (pool', p) ↦ ok (pool', p, false)
]

-- `pdp_control_notify_drop` counts a drop; the counter is a `long`.
abbrev pub notify_if : Bool → ℕ → ℕ
notify_if true dropped = (dropped + 1) % 2 ^ 64
notify_if false dropped = dropped

-- `pdp_packet_replace_if_valid`: the pool and both variables.
unfoldable pub replace_if_valid :
    Env → Pool → Option ℕ → Option ℕ → Outcome (Pool × Option ℕ × Option ℕ)
replace_if_valid env pool dpacket none = ok (pool, dpacket, none)
replace_if_valid env pool none (some s) = ok (pool, some s, none)
replace_if_valid env pool (some d) (some s) = elim (mark_unused env pool d) [
  | fault ↦ fault
  | ok pool' ↦ ok (pool', some s, none)
]

-- One receiver's part in the phase `register_ro`, in front of the others.
abbrev pub ahead : Option ℕ → Outcome Patch → Outcome Patch
ahead inlet fault = fault
ahead inlet (ok s) = ok (record s { inlets = inlet ∷ s.inlets })

-- The first phase of `outlet_pdp_register`, for receivers that take a reference to read when asked for one.
unfoldable pub register_all : ℕ → List (Option ℕ) → Pool → ℕ → Outcome Patch
register_all p [] pool dropped = ok (record { pool = pool; inlets = []; dropped_packets = dropped })
register_all p (inlet ∷ inlets) pool dropped = elim (copy_ro_or_drop pool inlet p) [
  | fault ↦ fault
  | ok (pool', inlet', drop) ↦ ahead inlet' (register_all p inlets pool' (notify_if drop dropped))
]

-- What receivers do with a message.
abbrev pub Reaction : Type 0
Reaction = Patch → ℕ → Outcome Patch

-- `outlet_pdp_register`: after the phase `register_ro` the packet is offered again in the phase `register_rw`,
-- where receivers may take copies to write to.
unfoldable pub outlet_pdp_register : Reaction → Patch → ℕ → Outcome Patch
outlet_pdp_register register_rw s p = elim (register_all p s.inlets s.pool s.dropped_packets) [
  | fault ↦ fault
  | ok s' ↦ register_rw s' p
]

-- The variable is -1 when the receivers process what they have.
abbrev pub passed : Outcome Patch → Outcome (Patch × Option ℕ)
passed fault = fault
passed (ok s) = ok (s, none)

-- `pdp_packet_pass_if_valid`; `process` is what the receivers do in the phase `process`, where the message
-- names no packet.
unfoldable pub pass_if_valid :
    Env → Reaction → (Patch → Outcome Patch) → Patch → Option ℕ → Outcome (Patch × Option ℕ)
pass_if_valid env register_rw process s none = ok (s, none)
pass_if_valid env register_rw process s (some p) = elim (header s.pool p) [
  | none ↦ ok (s, some p)
  | some h ↦ elim (outlet_pdp_register register_rw s p) [
    | fault ↦ fault
    | ok s' ↦ elim (mark_unused env s'.pool p) [
      | fault ↦ fault
      | ok pool' ↦ passed (process (record s' { pool = pool' }))
    ]
  ]
]
