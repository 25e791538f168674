-- ===== src/Net/RoundTrip.antt =====
-- Both ends together: the first burst of a sender, delivered without a loss.
use mathlib.Core.Path.{subst}
use pdp.Base.{
  ℕ, zero, suc, ◌+◌, ◌^◌, ◌≤◌, ◌<◌, ◌≡◌, ◌≢◌, refl, ap, ◌∙◌, sym, arith, List, [], ◌∷◌, ◌++◌,
  length,
}
use pdp.Net.{Datagram, framed, runt, make_header, udp_bufsize, ok}
use pdp.Net.Receiver.{Receiver, arrived, Status, Received}
use pdp.Net.Transfer.{Transmission, GenuineInput, chunk_at}
use pdp.Net.Session.{Session, received}
use pdp.Net.Sender.{Sender, prepare, header_packet, send_chunks, done_packet, count_up}
use pdp.Net.Chunks.{
  transmission, IsSending, AllGenuine, GenuineDatagram, prepare-IsSending, header_packet-Genuine,
  burst, send_chunks-burst,
}
use pdp.Net.Complete.{Run, last, next, Delivers, chunks_done, receive-Delivers}

-- The sender's burst ends as the receiver's run does.
burst-chunks_done :
    (y : Sender) (sending : IsSending y) (k n : ℕ)
    → burst y sending k n ++ (done_packet y ∷ []) ≡ chunks_done (transmission y) k n
unfolding done_packet
burst-chunks_done y sending k zero = refl
burst-chunks_done y sending k (suc n) =
    ap (λ ds. framed (make_header y.connection_id k) (chunk_at (transmission y) k) ∷ ds)
      (burst-chunks_done y sending (suc k) n)

header_packet-Delivers :
    (y : Sender) (x : Receiver)
    → IsSending y
    → y.nb_chunks ≤ 2 ^ 31
    → length x.buf ≡ udp_bufsize
    → x.connection_id ≢ y.connection_id
    → Delivers x
        (header_packet y ∷ chunks_done (transmission y) 0 y.nb_chunks)
        y.connection_id
        y.bytes
unfolding header_packet
header_packet-Delivers y x sending small room elsewhere =
    receive-Delivers (transmission y) x _ sending.sound small room elsewhere
      (header_packet-Genuine y sending)

-- A first burst that goes through, and what the receiver then makes of it.
abbrev pub FirstBurst : Sender → Receiver → ℕ → List ℕ → Type 0
FirstBurst y x id bytes =
    (chunks : List Datagram) × (send_chunks y ≡ ok chunks)
    × Delivers x (header_packet y ∷ (chunks ++ (done_packet y ∷ []))) id bytes

prepared_list :
    (y : Sender) (id : ℕ) (type bytes : List ℕ) (size : ℕ)
    → let z = prepare y id type size bytes in
      (z.chunk_list ≡ count_up 0 z.nb_chunks)
      × (z.chunk_list_size ≡ z.nb_chunks)
      × (z.bytes ≡ bytes)
      × (z.connection_id ≡ id)
unfolding prepare
prepared_list y id type bytes size = (refl, refl, refl, refl)

pub prepare-FirstBurst :
    (y : Sender) (x : Receiver) (id : ℕ) (type bytes : List ℕ)
    → id ≢ 0
    → 0 < length bytes
    → length bytes ≤ 2 ^ 31
    → 0 < y.udp_payload_size
    → y.udp_payload_size ≤ udp_bufsize
    → length type + 13 ≤ udp_bufsize
    → length x.buf ≡ udp_bufsize
    → x.connection_id ≢ id
    → FirstBurst (prepare y id type (length bytes) bytes) x id bytes
prepare-FirstBurst y x id type bytes valid some small pos fits short room elsewhere =
    let z = prepare y id type (length bytes) bytes in
    let sending = prepare-IsSending y id type bytes valid some pos fits (omega arith) short in
    let (list, size, same, mine) = prepared_list y id type bytes (length bytes) in
    let few : z.nb_chunks ≤ 2 ^ 31 = omega (arith, sending.count, ap length same) in
    let delivered = header_packet-Delivers z x sending few room (λ e. elsewhere (e ∙ mine)) in
    (
      burst z sending 0 z.nb_chunks,
      send_chunks-burst z sending list size,
      subst (λ ds. Delivers x (header_packet z ∷ ds) id bytes)
          (sym (burst-chunks_done z sending 0 z.nb_chunks))
          (subst
            (λ b. Delivers x (header_packet z ∷ chunks_done (transmission z) 0 z.nb_chunks) id b)
            same
            (subst
              (λ i.
                Delivers x (header_packet z ∷ chunks_done (transmission z) 0 z.nb_chunks) i z.bytes)
              mine delivered)),
    )

genuine : (t : Transmission) (d : Datagram) → GenuineDatagram t d → GenuineInput t (arrived d)
genuine t (runt n) u = u
genuine t (framed h body) u = u

-- A run of genuine datagrams continues a session.
pub Run-Session :
    (t : Transmission) {x : Receiver} {s : Status} {ds : List Datagram} {r : Received}
    → Session t x s
    → AllGenuine t ds
    → Run x ds r
    → Session t r.receiver r.status
Run-Session t session g (last {d} {r} e) = received session (arrived d) r (genuine t d g.0) e
Run-Session t session g (next {d} {r} e rest) =
    Run-Session t (received session (arrived d) r (genuine t d g.0) e) g.1 rest
