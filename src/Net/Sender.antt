-- ===== src/Net/Sender.antt =====
-- The sending end, system/net/pdp_net.c from `_sleep` to `pdp_udp_sender_send`. The pauses between
-- datagrams are left out. What the socket brings is a list of replies; where it ends, `select`
-- times out.
use pdp.Base.{
  ℕ, zero, suc, ◌+◌, ◌-◌, ◌*◌, ◌/◌, ◌%◌, ◌^◌, Bool, true, false, not, ◌&&◌, List, [], ◌∷◌, ◌++◌,
  ◌==◌, ltb, leb, if◌then◌else◌, length, take, drop,
}
use pdp.Net.{
  Datagram, runt, framed, make_header, is_udp_header, udp_new, udp_done, udp_resend, udp_acknew,
  udp_bufsize, read_u32, write_u32, Outcome, ok, fault,
}
use pdp.Net.Copy.{write_at}

-- `t_pdp_udp_sender` without the socket, the flow control and the staging buffers.
pub record Sender : Type 0 where
  pub connected : Bool
  pub udp_payload_size : ℕ
  pub connection_id : ℕ
  pub data_type : List ℕ
  pub bytes : List ℕ
  pub data_size : ℕ
  pub chunk_size : ℕ
  pub nb_chunks : ℕ
  pub chunk_list : List ℕ
  pub chunk_list_size : ℕ
  pub resend_chunks : List ℕ
  pub resend_items : ℕ

-- 0, 1, …, n - 1 from `i` on.
abbrev pub count_up : ℕ → ℕ → List ℕ
count_up i zero = []
count_up i (suc n) = i ∷ count_up (suc i) n

-- `pdp_udp_sender_udp_packet_size`: sizes are ints there, below 16 the payload wraps.
unfoldable pub udp_packet_size : Sender → ℕ → Sender
udp_packet_size x size =
    let i = (size + 2 ^ 32 - 16) % 2 ^ 32 in
    record x { udp_payload_size = if ltb i (2 ^ 31) && ltb udp_bufsize i then udp_bufsize else i }

-- `(x_data_size - 1) / x_chunk_size + 1`; `send` gives `fault` where the chunk size is 0.
unfoldable pub chunk_count : ℕ → ℕ → ℕ
chunk_count size chunk = ((size + 2 ^ 32 - 1) % 2 ^ 32 / chunk + 1) % 2 ^ 32

-- `_prepare_for_new_transmission`; `id` is the first number other than 0 that `rand` gives.
unfoldable pub prepare : Sender → ℕ → List ℕ → ℕ → List ℕ → Sender
unfolding chunk_count
prepare x id type size bytes =
    let n = chunk_count size x.udp_payload_size in
    record x {
      data_type = type;
      data_size = size;
      bytes = bytes;
      chunk_size = x.udp_payload_size;
      nb_chunks = n;
      connection_id = id;
      chunk_list_size = n;
      chunk_list = count_up 0 n;
    }

-- `_send_header_packet`: three words and the type's string with its zero. Its assertion on the length is a
-- test of `send`.
unfoldable pub header_packet : Sender → Datagram
unfolding write_u32
header_packet x = framed (make_header x.connection_id udp_new) (
    write_u32 x.data_size
    ++ write_u32 x.nb_chunks
    ++ write_u32 x.chunk_size
    ++ x.data_type
    ++ 0 ∷ [])

-- One round of `_send_chunks`, with its assertions.
unfoldable pub send_chunk : Sender → ℕ → Outcome Datagram
send_chunk x seq =
    let offset = (seq * x.chunk_size) % 2 ^ 32 in
    let size =
      if ltb x.data_size ((offset + x.chunk_size) % 2 ^ 32)
      then x.data_size - offset
      else x.chunk_size in
    if ltb seq x.nb_chunks
      && ltb offset x.data_size
      && leb size udp_bufsize
      && leb ((offset + size) % 2 ^ 32) x.data_size
    then ok (framed (make_header x.connection_id seq) (take size (drop offset x.bytes)))
    else fault

unfoldable pub send_list : Sender → List ℕ → Outcome (List Datagram)
send_list x [] = ok []
send_list x (seq ∷ seqs) =
    let rest = send_list x seqs in
    elim (send_chunk x seq) [
      | fault ↦ fault
      | ok d ↦ elim rest [ ok ds ↦ ok (d ∷ ds) | fault ↦ fault ]
    ]

-- `_send_chunks`
unfoldable pub send_chunks : Sender → Outcome (List Datagram)
send_chunks x = send_list x (take x.chunk_list_size x.chunk_list)

-- `_send_done`
unfoldable pub done_packet : Sender → Datagram
done_packet x = framed (make_header x.connection_id udp_done) []

-- What `select` and `recv` bring to the sender.
pub data Reply : Type 0 where
  select_error timed_out recv_error : Reply
  arrived : Datagram → Reply

-- The result of `_receive_packet`: 0, -1 and 1.
pub data Answer : Type 0 where
  timeout error got : Answer

-- The words of a datagram's body, as `recv` leaves them in `x_resend_chunks`.
unfoldable pub words : List ℕ → List ℕ → List ℕ
unfolding read_u32
words body [] = []
words body (w ∷ ws) = elim body [
  | [] ↦ w ∷ ws
  | b ∷ bs ↦ read_u32 (b ∷ bs) 0 ∷ words (drop 4 (b ∷ bs)) ws
]

-- The tests of `_receive_packet` on a datagram, for the current connection and the wanted type.
unfoldable pub is_wanted : Sender → ℕ → Datagram → Bool
unfolding is_udp_header
is_wanted x desired (runt n) = false
is_wanted x desired (framed h body) =
    is_udp_header (framed h body)
    && x.connection_id == h.connection_id
    && h.sequence_number == desired

-- What a wanted datagram leaves in the sender.
unfoldable pub keep_reply : Sender → ℕ → Datagram → Sender
unfolding words
keep_reply x desired (runt n) = x
keep_reply x desired (framed h body) = record x {
  resend_chunks = words body x.resend_chunks;
  resend_items = if desired == udp_resend then length body / 4 else x.resend_items;
}

-- `_receive_packet`: others are skipped. The replies that are left come back too.
unfoldable pub receive_packet : Sender → ℕ → List Reply → Answer × Sender × List Reply
unfolding is_wanted keep_reply
receive_packet x desired [] = (timeout, x, [])
receive_packet x desired (select_error ∷ rs) = (error, x, rs)
receive_packet x desired (timed_out ∷ rs) = (timeout, x, rs)
receive_packet x desired (recv_error ∷ rs) = (error, x, rs)
receive_packet x desired (arrived d ∷ rs) =
    let rest = receive_packet x desired rs in
    if is_wanted x desired d then (got, keep_reply x desired d, rs) else rest

-- What a function of the sender leaves: its result, the sender, the replies not yet read, and
-- what was sent meanwhile.
pub record Sent (A : Type 0) : Type 0 where
  pub result : A
  pub sender : Sender
  pub rest : List Reply
  pub out : List Datagram

-- `_need_resend`, with the retries that are left.
unfoldable pub need_resend : ℕ → Sender → List Reply → Sent Bool
need_resend zero x rs = record {
  result = false;
  sender = record x { chunk_list_size = 0 };
  rest = rs;
  out = [];
}
need_resend (suc retries) x rs =
    let (a, y, rs') = receive_packet x udp_resend rs in
    let again = need_resend retries y rs' in
    let dropped = need_resend retries (record y { resend_items = 0 }) rs' in
    elim a [
      | timeout ↦ record again { out = done_packet x ∷ again.out }
      | error ↦ record {
        result = false;
        sender = record y { chunk_list_size = 0 };
        rest = rs';
        out = done_packet x ∷ [];
      }
      | got ↦ elim (ltb y.nb_chunks y.resend_items) [
        | true ↦ record dropped { out = done_packet x ∷ dropped.out }
        | false ↦ record {
          result = ltb 0 y.resend_items;
          sender = record y {
            chunk_list_size = y.resend_items;
            chunk_list = write_at y.chunk_list 0 (take y.resend_items y.resend_chunks);
          };
          rest = rs';
          out = done_packet x ∷ [];
        }
      ]
    ]

-- The handshake loop, with the retries that are left: `true` where the loop ended other than by
-- running out of them. An error ends it like an acknowledgement.
unfoldable pub handshake : ℕ → Sender → List Reply → Sent Bool
handshake zero x rs = record { result = false; sender = x; rest = rs; out = [] }
handshake (suc retries) x rs =
    let (a, y, rs') = receive_packet x udp_acknew rs in
    let again = handshake retries y rs' in
    elim a [
      | timeout ↦ record again { out = header_packet x ∷ again.out }
      | _ ↦ record { result = true; sender = y; rest = rs'; out = header_packet x ∷ [] }
    ]

-- The transmission loop, with the rounds that are left.
unfoldable pub transmit : ℕ → Sender → List Reply → Outcome (Sent Bool)
transmit zero x rs = ok (record { result = false; sender = x; rest = rs; out = [] })
transmit (suc rounds) x rs =
    let r = need_resend 3 x rs in
    let again = transmit rounds r.sender r.rest in
    elim (send_chunks x) [
      | fault ↦ fault
      | ok chunks ↦ elim r.result [
        | false ↦ ok (record r { result = true; out = chunks ++ r.out })
        | true ↦ elim again [
          | fault ↦ fault
          | ok s ↦ ok (record s { out = chunks ++ r.out ++ s.out })
        ]
      ]
    ]

-- The rest of `pdp_udp_sender_send`, from the handshake on.
unfoldable pub run : Sender → List Reply → Outcome (Sent Bool)
run x rs =
    let h = handshake 5 x rs in
    let t = transmit 5 h.sender h.rest in
    elim h.result [
      | false ↦ ok h
      | true ↦ elim t [ fault ↦ fault | ok s ↦ ok (record s { out = h.out ++ s.out }) ]
    ]

-- The chunk size that the sender divides by, and the assertion that the announcement fits its buffer.
abbrev pub is_sendable : Sender → List ℕ → Bool
is_sendable x type = not (x.udp_payload_size == 0) && leb (length type + 13) udp_bufsize

-- `pdp_udp_sender_send`: `true` is 1.
unfoldable pub send : Sender → ℕ → List ℕ → ℕ → List ℕ → List Reply → Outcome (Sent Bool)
send x id type size bytes rs =
    if not x.connected
    then ok (record { result = false; sender = x; rest = rs; out = [] })
    else if is_sendable x type
    then run (prepare x id type size bytes) rs
    else fault
