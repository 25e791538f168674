-- ===== src/Net/Receiver.antt =====
-- The receiving end, system/net/pdp_net.c from `_send_packet` to `pdp_udp_receiver_receive`.
use pdp.Base.{
  ℕ, zero, suc, ◌+◌, ◌-◌, ◌*◌, ◌%◌, ◌^◌, Bool, true, false, not, ◌&&◌, ◌||◌, List, [], ◌∷◌, ◌==◌,
  leb, if◌then◌else◌, min, length, set, take, drop, replicate,
}
use mathlib.Core.List.{flat_map}
use pdp.Net.{
  Header, Datagram, runt, framed, make_header, is_udp_header, udp_new, udp_done, udp_resend,
  udp_acknew, udp_bufsize, resend_max_chunks, read_u32, write_u32, Outcome, ok, fault,
}
use pdp.Net.Copy.{write_at}

-- `t_pdp_udp_receiver` without the sockets. A pointer that is still NULL is an empty list.
pub record Receiver : Type 0 where
  pub buf : List ℕ
  pub buf_size : ℕ
  pub resend_chunks : List ℕ
  pub connection_id : ℕ
  pub nb_chunks : ℕ
  pub chunk_size : ℕ
  pub chunk_list : List ℕ
  pub data_type : List ℕ
  pub data_size : ℕ
  pub bytes : List ℕ
  pub receive_finished : Bool
  pub packet_transferred : Bool

-- `pdp_udp_receiver_new`, where the socket could be bound.
abbrev pub receiver_new : Receiver
receiver_new = record {
  buf = replicate udp_bufsize 0;
  buf_size = 0;
  resend_chunks = replicate resend_max_chunks 0;
  connection_id = 0;
  nb_chunks = 0;
  chunk_size = 0;
  chunk_list = [];
  data_type = [];
  data_size = 0;
  bytes = [];
  receive_finished = false;
  packet_transferred = false;
}

-- `pdp_udp_receiver_reset`
unfoldable pub receiver_reset : Receiver → Receiver
receiver_reset x = record x { connection_id = 0 }

-- The string that starts a byte string, up to its zero; `x_zero_terminator` stands at the end.
unfoldable pub c_string : List ℕ → List ℕ
c_string [] = []
c_string (c ∷ cs) = if c == 0 then [] else c ∷ c_string cs

-- The state that a new transmission starts from.
unfoldable pub prepare_for_reception : Receiver → Header → Receiver
unfolding read_u32 c_string
prepare_for_reception x h = record x {
  data_type = c_string (drop 12 x.buf);
  data_size = read_u32 x.buf 0;
  bytes = replicate (read_u32 x.buf 0) 0;
  connection_id = h.connection_id;
  nb_chunks = read_u32 x.buf 4;
  chunk_size = read_u32 x.buf 8;
  chunk_list = replicate (read_u32 x.buf 4) 0;
  receive_finished = false;
  packet_transferred = false;
}

-- `_handle_PDP_UDP_NEW`: a repeated announcement is only acknowledged again.
unfoldable pub handle_new : Receiver → Header → Receiver × List Datagram
unfolding prepare_for_reception
handle_new x h =
    let x' = if x.connection_id == h.connection_id then x else prepare_for_reception x h in
    (x', framed (make_header x'.connection_id udp_acknew) [] ∷ [])

-- The number of chunks that have not come in.
unfoldable pub count_missing : List ℕ → ℕ
count_missing [] = 0
count_missing (c ∷ cs) = if c == 0 then suc (count_missing cs) else count_missing cs

-- `while (x_chunk_list[chunk]) chunk++;` over the list from `chunk` on: the chunk where it stops,
-- and the list behind that one.
unfoldable pub next_missing : ℕ → List ℕ → ℕ × List ℕ
next_missing chunk [] = (chunk, [])
next_missing chunk (c ∷ cs) = elim (c == 0) [
  | true ↦ (chunk, cs)
  | false ↦ next_missing (suc chunk) cs
]

-- `i = missing; while (i--) { …; x_resend_chunks[i] = chunk++; }`, with the chunk list from `chunk`
-- on: the first missing chunk goes to the last place.
unfoldable pub fill_resend : ℕ → ℕ → List ℕ → List ℕ → List ℕ
unfolding next_missing
fill_resend zero chunk chunks out = out
fill_resend (suc i) chunk chunks out =
    let found = next_missing chunk chunks in fill_resend i (suc found.0) found.1 (set out i found.0)

-- `_handle_PDP_UDP_DONE`
unfoldable pub handle_done : Receiver → Header → Receiver × List Datagram
unfolding count_missing fill_resend
handle_done x h =
    let missing = min (count_missing x.chunk_list) resend_max_chunks in
    let resend = fill_resend missing 0 x.chunk_list x.resend_chunks in
    let reply =
      framed (make_header x.connection_id udp_resend) (flat_map write_u32 (take missing resend)) in
    if x.connection_id == h.connection_id
    then (
      record x {
        resend_chunks = resend;
        receive_finished = if missing == 0 then true else x.receive_finished;
      },
      reply ∷ [],
    )
    else (x, [])

-- `_handle_UDP_DATA`: a chunk that is not expected or not in range is ignored.
unfoldable pub handle_data : Receiver → Header → Outcome Receiver
handle_data x h =
    let seq = h.sequence_number in
    let offset = (x.chunk_size * seq) % 2 ^ 32 in
    if x.connection_id == 0 || not (x.connection_id == h.connection_id)
    then ok x
    else if leb x.nb_chunks seq
    then ok x
    else if leb ((offset + x.buf_size) % 2 ^ 32) x.data_size
    then ok (record x {
      bytes = write_at x.bytes offset (take x.buf_size x.buf);
      chunk_list = set x.chunk_list seq 1;
    })
    else fault

-- What `select` and `recvfrom` bring.
pub data Input : Type 0 where
  select_error timed_out recv_error : Input
  arrived : Datagram → Input

-- The result of `pdp_udp_receiver_receive`: -1, 0 and 1.
pub data Status : Type 0 where
  failed nothing complete : Status

pub record Received : Type 0 where
  pub status : Status
  pub receiver : Receiver
  pub replies : List Datagram

abbrev pub answer : Receiver × List Datagram → Received
answer (x, out) = record { status = nothing; receiver = x; replies = out }

-- `recvfrom` writes over the start of the buffer; the rest keeps its old bytes.
unfoldable pub store_datagram : Receiver → Datagram → Receiver
store_datagram x (runt n) = record x { buf_size = (n + 2 ^ 32 - 16) % 2 ^ 32 }
store_datagram x (framed h body) =
    let b = take udp_bufsize body in record x { buf = write_at x.buf 0 b; buf_size = length b }

-- After `PDP_UDP_DONE`: a complete packet is signalled once.
unfoldable pub signal_arrival : Receiver × List Datagram → Received
signal_arrival (x, out) =
    if x.receive_finished && not x.packet_transferred
    then record {
      status = complete;
      receiver = record x { packet_transferred = true };
      replies = out;
    }
    else answer (x, out)

-- A control datagram, whose sequence number is negative as an int.
unfoldable pub control : Receiver → Header → Received
unfolding handle_new handle_done signal_arrival
control x h =
    if h.sequence_number == udp_new
    then answer (handle_new x h)
    else if h.sequence_number == udp_done
    then signal_arrival (handle_done x h)
    else answer (x, [])

-- The dispatch on a datagram with a valid header.
unfoldable pub dispatch : Receiver → Header → Outcome Received
dispatch x h =
    if leb (2 ^ 31) h.sequence_number
    then ok (control x h)
    else elim (handle_data x h) [ ok x' ↦ ok (answer (x', [])) | fault ↦ fault ]

-- `pdp_udp_receiver_receive`
unfoldable pub receive : Receiver → Input → Outcome Received
unfolding is_udp_header
receive x select_error = ok (record { status = failed; receiver = x; replies = [] })
receive x timed_out = ok (answer (x, []))
receive x recv_error = ok (record { status = failed; receiver = x; replies = [] })
receive x (arrived (runt n)) = ok (answer (store_datagram x (runt n), []))
receive x (arrived (framed h body)) =
    let x' = store_datagram x (framed h body) in
    if is_udp_header (framed h body) then dispatch x' h else ok (answer (x', []))
