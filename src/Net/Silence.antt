-- ===== src/Net/Silence.antt =====
-- A run of `pdp_udp_sender_send` that nobody answers after the announcement.
use pdp.Base.{
  ℕ, suc, ◌+◌, ◌^◌, ◌≤◌, ◌<◌, ◌≡◌, ◌≢◌, refl, ap, ◌∙◌, sym, Bool, true, false, List, [], ◌∷◌, ◌++◌,
  length, ==-refl, arith,
}
use pdp.Net.{Datagram, framed, make_header, udp_acknew, udp_bufsize, Outcome, ok}
use pdp.Net.Sender.{
  Sender, prepare, header_packet, send_chunks, done_packet, Reply, arrived, got, is_wanted,
  keep_reply, receive_packet, Sent, need_resend, handshake, transmit, run, send, is_sendable,
  count_up,
}
use pdp.Net.Chunks.{prepare-IsSending, send_chunks-burst, burst}
use pdp.Net.Send.{keep_reply-Keeps}

-- Where an acknowledgement is all that comes back.
abbrev pub acknowledged : ℕ → Datagram
acknowledged id = framed (make_header id udp_acknew) []

receive_packet-acknowledged :
    (x : Sender)
    → receive_packet x udp_acknew (arrived (acknowledged x.connection_id) ∷ [])
      ≡ (got, keep_reply x udp_acknew (acknowledged x.connection_id), [])
unfolding receive_packet is_wanted
receive_packet-acknowledged x = rw (==-refl x.connection_id)

handshake-acknowledged :
    (n : ℕ) (x : Sender)
    → handshake (suc n) x (arrived (acknowledged x.connection_id) ∷ []) ≡ record {
      result = true;
      sender = keep_reply x udp_acknew (acknowledged x.connection_id);
      rest = [];
      out = header_packet x ∷ [];
    }
unfolding handshake
handshake-acknowledged n x =
    rw (receive_packet-acknowledged x, handshake) (rw (receive_packet-acknowledged x))

need_resend_silent :
    (x : Sender)
    → need_resend 3 x [] ≡ record {
      result = false;
      sender = record x { chunk_list_size = 0 };
      rest = [];
      out = done_packet x ∷ done_packet x ∷ done_packet x ∷ [];
    }
unfolding need_resend receive_packet
need_resend_silent x = refl

-- What the transmission loop leaves when nothing comes back.
abbrev unanswered : Sender → List Datagram → Sent Bool
unanswered x chunks = record {
  result = true;
  sender = record x { chunk_list_size = 0 };
  rest = [];
  out = chunks ++ done_packet x ∷ done_packet x ∷ done_packet x ∷ [];
}

transmit_silent :
    (n : ℕ) (x : Sender) (chunks : List Datagram)
    → send_chunks x ≡ ok chunks
    → transmit (suc n) x [] ≡ ok (unanswered x chunks)
unfolding transmit
transmit_silent n x chunks e = rw (e, need_resend_silent x, transmit) (rw (need_resend_silent x))

run_silent :
    (x : Sender) (chunks : List Datagram)
    → send_chunks (keep_reply x udp_acknew (acknowledged x.connection_id)) ≡ ok chunks
    → let u = unanswered (keep_reply x udp_acknew (acknowledged x.connection_id)) chunks in
      run x (arrived (acknowledged x.connection_id) ∷ [])
      ≡ ok (record u { out = header_packet x ∷ u.out })
unfolding run
run_silent x chunks e =
    let h = handshake-acknowledged 4 x in
    rw (h, run) (rw h (rw (transmit_silent 4 _ chunks e) (rw h)))

send_connected :
    (x : Sender) (id : ℕ) (type bytes : List ℕ) (size : ℕ) (rs : List Reply)
    → x.connected ≡ true
    → 0 < x.udp_payload_size
    → length type + 13 ≤ udp_bufsize
    → send x id type size bytes rs ≡ run (prepare x id type size bytes) rs
unfolding send
send_connected x id type bytes size rs on some short =
    let ready : is_sendable x type ≡ true = ground arith in rw (on, send) (rw ready refl)

-- The acknowledgement leaves the sender ready for its first burst.
keep_reply_acknew :
    (x : Sender)
    → let y = keep_reply x udp_acknew (acknowledged x.connection_id) in
      (y.chunk_list ≡ x.chunk_list)
      × (y.chunk_list_size ≡ x.chunk_list_size)
      × (y.nb_chunks ≡ x.nb_chunks)
unfolding keep_reply
keep_reply_acknew x = (refl, refl, refl)

-- A send that reports success.
abbrev pub Succeeds : Outcome (Sent Bool) → Type 0
Succeeds o = (s : Sent Bool) × (o ≡ ok s) × (s.result ≡ true)

-- A receiver that acknowledges the announcement and never answers again is taken to have
-- everything: the run reports success, though no PDP_UDP_RESEND confirmed a chunk.
pub send_unconfirmed :
    (x : Sender) (id : ℕ) (type bytes : List ℕ)
    → x.connected ≡ true
    → id ≢ 0
    → 0 < length bytes
    → 0 < x.udp_payload_size
    → x.udp_payload_size ≤ udp_bufsize
    → length bytes + x.udp_payload_size ≤ 2 ^ 32
    → length type + 13 ≤ udp_bufsize
    → Succeeds (send x id type (length bytes) bytes (arrived (acknowledged id) ∷ []))
unfolding prepare
send_unconfirmed x id type bytes on valid some pos fits room short =
    let y = prepare x id type (length bytes) bytes in
    let z = keep_reply y udp_acknew (acknowledged id) in
    let k = keep_reply-Keeps y udp_acknew (acknowledged id) in
    let sending = k.sending (prepare-IsSending x id type bytes valid some pos fits room short) in
    let (list, size, count) = keep_reply_acknew y in
    let chunks = burst z sending 0 z.nb_chunks in
    let first : send_chunks z ≡ ok chunks =
      send_chunks-burst z sending (list ∙ ap (count_up 0) (sym count)) (size ∙ sym count) in
    let u = unanswered z chunks in
    (
      record u { out = header_packet y ∷ u.out },
      send_connected x id type bytes (length bytes) (arrived (acknowledged id) ∷ []) on pos short
          ∙ run_silent y chunks first,
      refl,
    )
