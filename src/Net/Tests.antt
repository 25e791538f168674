-- ===== src/Net/Tests.antt =====
-- The transport on three bytes in two chunks: runs, and the theorems at concrete inputs.
use pdp.Base.{ℕ, ◌≡◌, refl, arith, true, List, [], ◌∷◌, ◌++◌, length-replicate}
use pdp.Net.{Datagram, framed, make_header, udp_done, udp_bufsize, resend_max_chunks, ok}
use pdp.Net.Receiver.{Receiver, receiver_new, Received, handle_done}
use pdp.Net.Resend.{missing_from, Request, handle_done-Request}
use pdp.Net.Session.{Session, opened, Session-bytes}
use pdp.Net.Sender.{
  Sender, arrived, prepare, header_packet, send_chunk, send_list, send_chunks, done_packet, send,
}
use pdp.Net.Chunks.{
  transmission, IsSending, AllGenuine, AllGenuine-append, prepare-IsSending, header_packet-Genuine,
  done_packet-Genuine, send_list-Genuine,
}
use pdp.Net.Silence.{acknowledged, Succeeds, send_unconfirmed}
use pdp.Net.RoundTrip.{FirstBurst, prepare-FirstBurst, Run-Session}

abbrev sender : Sender
sender = record {
  connected = true;
  udp_payload_size = 2;
  connection_id = 0;
  data_type = [];
  bytes = [];
  data_size = 0;
  chunk_size = 0;
  nb_chunks = 0;
  chunk_list = [];
  chunk_list_size = 0;
  resend_chunks = [];
  resend_items = 0;
}

abbrev three_bytes : List ℕ
three_bytes = 1 ∷ 2 ∷ 3 ∷ []

abbrev prepared : Sender
prepared = prepare sender 5 [] 3 three_bytes

two_chunks :
    send_chunks prepared
    ≡ ok (framed (make_header 5 0) (1 ∷ 2 ∷ []) ∷ framed (make_header 5 1) (3 ∷ []) ∷ [])
unfolding send_chunks prepare send_list send_chunk
two_chunks = refl

-- Half of the transmission: chunk 1 is missing.
abbrev half : Receiver
half = record receiver_new { connection_id = 5; nb_chunks = 3; chunk_list = 1 ∷ 0 ∷ 0 ∷ [] }

missing_two : missing_from 0 half.chunk_list ≡ 1 ∷ 2 ∷ []
unfolding missing_from
missing_two = refl

handle_done-Request_example : Request half (handle_done half (make_header 5 udp_done))
handle_done-Request_example =
    handle_done-Request half (make_header 5 udp_done) refl
      (length-replicate {A = ℕ} resend_max_chunks 0)

prepare-FirstBurst_example : FirstBurst prepared receiver_new 5 three_bytes
prepare-FirstBurst_example =
    prepare-FirstBurst sender receiver_new 5 [] three_bytes (omega arith) (omega arith)
      (omega arith) (omega arith) (omega arith) (omega arith)
      (length-replicate {A = ℕ} udp_bufsize 0) (omega arith)

sending : IsSending prepared
sending =
    prepare-IsSending sender 5 [] three_bytes (omega arith) (omega arith) (omega arith)
      (omega arith) (omega arith) (omega arith)

genuine :
    {chunks : List Datagram}
    → send_chunks prepared ≡ ok chunks
    → AllGenuine
        (transmission prepared)
        (header_packet prepared ∷ (chunks ++ (done_packet prepared ∷ [])))
unfolding send_chunks
genuine {chunks} e = (
  header_packet-Genuine prepared sending,
  AllGenuine-append (transmission prepared) chunks (done_packet prepared ∷ [])
      (send_list-Genuine prepared sending _ e) (done_packet-Genuine prepared sending, tt),
)

abbrev outcome : Received
outcome = prepare-FirstBurst_example.2.0

signalled-Session : Session (transmission prepared) outcome.receiver outcome.status
signalled-Session =
    let (chunks, sent, delivered) = prepare-FirstBurst_example in
    Run-Session (transmission prepared) opened (genuine sent) delivered.1

Session-bytes_example : outcome.receiver.bytes ≡ three_bytes
unfolding prepare
Session-bytes_example =
    Session-bytes (transmission prepared) sending.sound signalled-Session
      prepare-FirstBurst_example.2.2 prepare-FirstBurst_example.2.3

send_unconfirmed_example : Succeeds (send sender 5 [] 3 three_bytes (arrived (acknowledged 5) ∷ []))
send_unconfirmed_example =
    send_unconfirmed sender 5 [] three_bytes refl (omega arith) (omega arith) (omega arith)
      (omega arith) (omega arith) (omega arith)
