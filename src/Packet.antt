-- ===== src/Packet.antt =====
-- The packet pool of system/kernel/pdp_packet.c: its state and the access to a packet. A handle
-- is a number; the handle -1 is `none` as a result, and any number past the pool as an argument.
pub mod Factory
pub mod Handle
pub mod Slots
pub mod Live
pub mod Revive
pub mod Reuse
pub mod Share
mod Tests
use pdp.Base.{
  ℕ, zero, suc, ◌+◌, ◌-◌, ◌%◌, ◌^◌, Bool, true, false, ◌&&◌, Option, none, some, List, [], ◌∷◌,
  ◌==◌, if◌then◌else◌, length, get_or, set, replicate,
}

-- `struct _pdp`, and the bytes of data that follow it in the same block. A symbol and a class are
-- numbers. `info` is the subheader.
pub record Header : Type 0 where
  pub type : ℕ
  pub desc : Option ℕ
  pub size : ℕ
  pub flags : ℕ
  pub users : ℕ
  pub theclass : Option ℕ
  pub info : List ℕ
  pub body : List ℕ

-- The pool, and the reuse fifo of each symbol; a fifo that is not there yet is empty.
pub record Pool : Type 0 where
  pub slots : List (Option Header)
  pub fifos : ℕ → List ℕ

-- `t_pdp_class`. Its methods stand in other files: `wakeup` and `sleep` act on the header, `copy` takes
-- the source's and the target's, `create` makes a packet in the pool.
pub record Class : Type 0 where
  pub wakeup : Option (Header → Header)
  pub copy : Option (Header → Header → Header)
  pub has_cleanup : Bool
  pub sleep : Option (Header → Header)
  pub type : Option ℕ
  pub create : Option (ℕ → Pool → Pool × Option ℕ)

-- What the pool uses of its surroundings: the classes, `class_list`, the description match of
-- pdp_type.c and the allocator, which gives the old bytes behind the header or fails.
pub record Env : Type 0 where
  pub class_of : ℕ → Class
  pub class_list : List Class
  pub match_desc : ℕ → ℕ → Bool
  pub alloc : ℕ → Option (List ℕ)

-- `PDP_HEADER_SIZE`, and what is left of it behind the named fields.
abbrev pub header_size : ℕ
header_size = 256

abbrev pub info_size : ℕ
info_size = 192

-- `pdp_packet_setup`
unfoldable pub packet_setup : Pool
packet_setup = record { slots = replicate 64 none; fifos = λ s. [] }

-- `pdp_packet_header`
unfoldable pub header : Pool → ℕ → Option Header
header pool packet = get_or pool.slots packet none

unfoldable pub put : Pool → ℕ → Option Header → Pool
put pool packet h = record pool { slots = set pool.slots packet h }

-- The fifo of one symbol replaced.
unfoldable pub set_fifo : Pool → ℕ → List ℕ → Pool
set_fifo pool s ps = record pool { fifos = λ t. if t == s then ps else pool.fifos t }

-- `pdp_packet_data_size`
unfoldable pub data_size : Pool → ℕ → ℕ
unfolding header
data_size pool packet = elim (header pool packet) [
  | none ↦ 0
  | some h ↦ (h.size + 2 ^ 32 - header_size) % 2 ^ 32
]

-- `pdp_packet_writable`
unfoldable pub writable : Pool → ℕ → Bool
unfolding header
writable pool packet = elim (header pool packet) [ none ↦ false | some h ↦ h.users == 1 ]
