-- ===== src/Net.antt =====
-- The UDP transport of system/net/pdp_net.c: what both ends share. A number of 32 bits stands for
-- an unsigned int, a byte string is a list of numbers below 256.
pub mod Copy
pub mod Receiver
pub mod Sender
pub mod Resend
pub mod Transfer
pub mod Delivery
pub mod Session
pub mod Chunks
pub mod Send
pub mod Silence
pub mod Complete
pub mod RoundTrip
mod Tests
pub use pdp.Base.{Outcome, ok, fault}
use pdp.Base.{
  ℕ, ◌+◌, ◌-◌, ◌*◌, ◌/◌, ◌%◌, ◌^◌, Bool, true, false, ◌&&◌, List, [], ◌∷◌, ◌++◌, ◌==◌,
  if◌then◌else◌, get_or,
}

-- `t_pdp_udp_header`, 16 bytes on the wire.
pub record Header : Type 0 where
  pub signature : List ℕ
  pub version : ℕ
  pub connection_id : ℕ
  pub sequence_number : ℕ

-- What arrives: a datagram too short for a header, or a header and the bytes behind it.
pub data Datagram : Type 0 where
  runt : (size : ℕ) → Datagram
  framed : (header : Header) (body : List ℕ) → Datagram

-- `PDP_UDP_NEW`, `_DONE`, `_RESEND` and `_ACKNEW` as unsigned ints.
abbrev pub udp_new : ℕ
udp_new = 2 ^ 32 - 1

abbrev pub udp_done : ℕ
udp_done = 2 ^ 32 - 2

abbrev pub udp_resend : ℕ
udp_resend = 2 ^ 32 - 3

abbrev pub udp_acknew : ℕ
udp_acknew = 2 ^ 32 - 4

abbrev pub udp_version : ℕ
udp_version = 1

abbrev pub udp_bufsize : ℕ
udp_bufsize = 0xf000

-- `(MAX_UDP_PACKET - sizeof(t_pdp_udp_header)) / sizeof(unsigned int)`
abbrev pub resend_max_chunks : ℕ
resend_max_chunks = (1472 - 16) / 4

abbrev pub pdp_signature : List ℕ
pdp_signature = b'P' ∷ b'D' ∷ b'P' ∷ 0 ∷ []

-- `_make_udp_header`
abbrev pub make_header : ℕ → ℕ → Header
make_header id seq = record {
  signature = pdp_signature;
  version = udp_version;
  connection_id = id;
  sequence_number = seq;
}

-- `strcmp(signature, "PDP")` is zero.
abbrev pub is_pdp : List ℕ → Bool
is_pdp s = get_or s 0 0 == b'P' && get_or s 1 0 == b'D' && get_or s 2 0 == b'P' && get_or s 3 1 == 0

-- `_is_udp_header`
unfoldable pub is_udp_header : Datagram → Bool
is_udp_header (runt n) = false
is_udp_header (framed h body) = is_pdp h.signature && h.version == udp_version

-- An unsigned int in memory, lowest byte first.
unfoldable pub write_u32 : ℕ → List ℕ
write_u32 n = n % 256 ∷ n / 256 % 256 ∷ n / 65536 % 256 ∷ n / 16777216 % 256 ∷ []

unfoldable pub read_u32 : List ℕ → ℕ → ℕ
read_u32 b i =
    get_or b i 0
    + 256 * get_or b (i + 1) 0
    + 65536 * get_or b (i + 2) 0
    + 16777216 * get_or b (i + 3) 0
