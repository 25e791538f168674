-- ===== src/Net/Complete.antt =====
-- A transmission that loses nothing: the announcement, all chunks and PDP_UDP_DONE in order leave
-- the receiver with the complete packet.
use native.Mathlib.Decide.{ℕ_discrete}
use mathlib.Core.Path.{subst}
use pdp.Base.{
  ℕ, zero, suc, ◌+◌, ◌^◌, ◌≤◌, ◌<◌, ◌≡◌, ◌≢◌, refl, ap, ◌∙◌, sym, arith, true, false, List, [], ◌∷◌,
  leb, length, get_or, set, get_or-set_self, get_or-set_ne, eq→==, ne→==, lt→leb,
}
use pdp.Net.{Header, Datagram, framed, make_header, udp_new, udp_done, udp_bufsize, read_u32, ok}
use pdp.Net.Receiver.{
  Receiver, arrived, complete, Received, answer, store_datagram, prepare_for_reception, handle_new,
  handle_done, handle_data, signal_arrival, control, dispatch, receive, count_missing,
}
use pdp.Net.Transfer.{
  Transmission, IsSound, IsGenuine, IsReceiving, chunk_at, take_all, all_copied, length-chunk_at,
  handle_data-with_chunk, with_chunk, with_chunk-IsReceiving,
}
use pdp.Net.Delivery.{
  Holds, prepare_for_reception-IsReceiving, store_datagram-Holds, take-Holds,
  prepare_for_reception-IsReceiving, store_datagram-IsConsistent,
}
use pdp.Net.Session.{dispatch-control}

-- The receiver in the transmission `t`, with its first `k` chunks in.
pub record IsReady (t : Transmission) (x : Receiver) (k : ℕ) : Type 0 where
  pub room : length x.buf ≡ udp_bufsize
  pub mine : x.connection_id ≡ t.id
  pub receiving : IsReceiving t x
  pub quiet : x.packet_transferred ≡ false
  pub marked : (j : ℕ) → j < k → get_or x.chunk_list j 0 ≢ 0

-- A datagram with a header as `_make_udp_header` leaves it passes `_is_udp_header`.
receive_made :
    (x : Receiver) (id seq : ℕ) (body : List ℕ)
    → receive x (arrived (framed (make_header id seq) body))
      ≡ dispatch (store_datagram x (framed (make_header id seq) body)) (make_header id seq)
unfolding receive
receive_made x id seq body = refl

store_datagram-keeps :
    (x : Receiver) (h : Header) (body : List ℕ)
    → (store_datagram x (framed h body)).connection_id ≡ x.connection_id
unfolding store_datagram
store_datagram-keeps x h body = refl

-- No chunk is missing where each is marked.
count_missing_none :
    (cs : List ℕ) → ((j : ℕ) → j < length cs → get_or cs j 0 ≢ 0) → count_missing cs ≡ 0
unfolding count_missing
count_missing_none [] marked = refl
count_missing_none (c ∷ cs) marked =
    rw (ne→== c 0 (marked 0 (omega arith)))
      (count_missing_none cs λ j less. marked (suc j) (omega arith))

-- PDP_UDP_DONE where no chunk is missing.
control_done :
    (x : Receiver) (h : Header)
    → x.connection_id ≡ h.connection_id
    → x.packet_transferred ≡ false
    → count_missing x.chunk_list ≡ 0
    → h.sequence_number ≡ udp_done
    → ((control x h).status ≡ complete)
      × ((control x h).receiver.connection_id ≡ x.connection_id)
      × ((control x h).receiver.bytes ≡ x.bytes)
unfolding control handle_done signal_arrival
control_done x h mine quiet none_left e =
    rw (e, eq→== _ _ mine, none_left) (rw quiet (refl, refl, refl))

module _ (t : Transmission) (sound : IsSound t) where
  store_datagram-IsReady :
      (x : Receiver) (h : Header) (body : List ℕ) (k : ℕ)
      → IsReady t x k
      → IsReady t (store_datagram x (framed h body)) k
  unfolding store_datagram
  store_datagram-IsReady x h body k r =
      let c =
        store_datagram-IsConsistent t sound x (framed h body)
          (record { room = r.room; current = λ _. r.receiving }) in
      record {
        room = c.room;
        mine = r.mine;
        receiving = c.current r.mine;
        quiet = r.quiet;
        marked = r.marked;
      }

  with_chunk-IsReady :
      (x : Receiver) (k : ℕ)
      → IsReady t x k
      → k < t.nb_chunks
      → IsReady t (with_chunk t sound x k) (suc k)
  with_chunk-IsReady x k r inside = record {
    room = r.room;
    mine = r.mine;
    receiving = with_chunk-IsReceiving t sound x k r.receiving inside;
    quiet = r.quiet;
    marked = λ j less e. elim (ℕ_discrete j k) [
      | yes same ↦ absurd (
          omega (
            arith,
            ap (λ m. get_or (set x.chunk_list k 1) m 0) same,
            get_or-set_self x.chunk_list k 1 0 (omega (arith, r.receiving.listed)),
          ))
      | no other ↦
          r.marked j (omega arith)
            (sym (get_or-set_ne x.chunk_list k j 1 0 (λ p. other (sym p))) ∙ e)
    ];
  }

  dispatch_stored :
      (x x' : Receiver) (h : Header)
      → leb (2 ^ 31) h.sequence_number ≡ false
      → handle_data x h ≡ ok x'
      → dispatch x h ≡ ok (answer (x', []))
  unfolding dispatch
  dispatch_stored x x' h chunk e = rw (chunk, e, dispatch)

  -- The next chunk comes in.
  receive_chunk :
      (x : Receiver) (k : ℕ)
      → IsReady t x k
      → k < t.nb_chunks
      → k < 2 ^ 31
      → (r : Received) × (receive x (arrived (framed (make_header t.id k) (chunk_at t k))) ≡ ok r)
        × IsReady t r.receiver (suc k)
  receive_chunk x k ready inside small =
      let h = make_header t.id k in
      let y = store_datagram x (framed h (chunk_at t k)) in
      let stored = store_datagram-IsReady x h (chunk_at t k) k ready in
      let fits : length (chunk_at t k) ≤ udp_bufsize =
        omega (arith, length-chunk_at t sound k, sound.chunk_fits) in
      let b : Holds y (chunk_at t k) =
        subst (Holds y) (take_all (chunk_at t k) udp_bufsize fits)
          (store_datagram-Holds x h (chunk_at t k) ready.room) in
      let accepted =
        handle_data-with_chunk t sound y h stored.receiving stored.mine refl inside
          (take-Holds b fits) b.filled in
      (
        answer (with_chunk t sound y k, []),
        receive_made x t.id k (chunk_at t k) ∙ dispatch_stored y _ h (lt→leb _ _ small) accepted,
        with_chunk-IsReady y k stored inside,
      )

  prepared-IsReady :
      (x : Receiver) (h : Header) (body : List ℕ)
      → Holds x body
      → 12 ≤ length body
      → read_u32 body 0 ≡ length t.bytes
      → read_u32 body 4 ≡ t.nb_chunks
      → read_u32 body 8 ≡ t.chunk_size
      → h.connection_id ≡ t.id
      → IsReady t (prepare_for_reception x h) 0
  unfolding prepare_for_reception
  prepared-IsReady x h body b long e₀ e₄ e₈ mine = record {
    room = b.room;
    mine = mine;
    receiving = prepare_for_reception-IsReceiving t sound x h body b long e₀ e₄ e₈;
    quiet = refl;
    marked = λ j less. absurd (omega arith);
  }

  -- The announcement makes a receiver that was elsewhere ready for the first chunk.
  receive_announcement :
      (x : Receiver) (body : List ℕ)
      → length x.buf ≡ udp_bufsize
      → x.connection_id ≢ t.id
      → IsGenuine t (make_header t.id udp_new) body
      → (r : Received) × (receive x (arrived (framed (make_header t.id udp_new) body)) ≡ ok r)
        × IsReady t r.receiver 0
  unfolding control handle_new
  receive_announcement x body room elsewhere g =
      let h = make_header t.id udp_new in
      let y = store_datagram x (framed h body) in
      let (long, fits, e₀, e₄, e₈) = g.announces refl refl in
      let b : Holds y body =
        subst (Holds y) (take_all body udp_bufsize fits) (store_datagram-Holds x h body room) in
      (
        control y h,
        receive_made x t.id udp_new body ∙ dispatch-control y h refl,
        rw (ne→== _ _ (λ e. elsewhere (sym (store_datagram-keeps x h body) ∙ e)))
            (prepared-IsReady y h body b long e₀ e₄ e₈ refl),
      )

  finished :
      {x : Receiver}
      → IsReady t x t.nb_chunks
      → IsReceiving t (record x { receive_finished = true })
  finished ready =
      let r = ready.receiving in
      record {
        count = r.count;
        chunk = r.chunk;
        size = r.size;
        buffer = r.buffer;
        listed = r.listed;
        copied = r.copied;
        finished = λ done. ready.marked;
      }

  -- With every chunk in, PDP_UDP_DONE completes the packet.
  receive_done :
      (x : Receiver)
      → IsReady t x t.nb_chunks
      → (r : Received) × (receive x (arrived (framed (make_header t.id udp_done) [])) ≡ ok r)
        × (r.status ≡ complete)
        × (r.receiver.connection_id ≡ t.id)
        × (r.receiver.bytes ≡ t.bytes)
  receive_done x ready =
      let h = make_header t.id udp_done in
      let y = store_datagram x (framed h []) in
      let stored = store_datagram-IsReady x h [] t.nb_chunks ready in
      let (told, kept, same) =
        control_done y h stored.mine stored.quiet
          (count_missing_none y.chunk_list
            λ j less. stored.marked j (omega (arith, stored.receiving.listed)))
          refl in
      (
        control y h,
        receive_made x t.id udp_done [] ∙ dispatch-control y h refl,
        told,
        kept ∙ stored.mine,
        same ∙ all_copied t sound (record y { receive_finished = true }) (finished stored) refl,
      )

-- The datagrams that come in one after the other, and what the last one gives.
pub data Run : Receiver → List Datagram → Received → Type 0 where
  last :
      {x : Receiver} {d : Datagram} {r : Received} → receive x (arrived d) ≡ ok r → Run x (d ∷ []) r
  next :
      {x : Receiver} {d : Datagram} {ds : List Datagram} {r r' : Received}
      → receive x (arrived d) ≡ ok r
      → Run r.receiver ds r'
      → Run x (d ∷ ds) r'

-- The chunks from `k` on, `n` of them, and PDP_UDP_DONE.
abbrev pub chunks_done : Transmission → ℕ → ℕ → List Datagram
chunks_done t k zero = framed (make_header t.id udp_done) [] ∷ []
chunks_done t k (suc n) = framed (make_header t.id k) (chunk_at t k) ∷ chunks_done t (suc k) n

-- The receiver takes all of the datagrams and at the end signals a packet of the given connection
-- and bytes.
abbrev pub Delivers : Receiver → List Datagram → ℕ → List ℕ → Type 0
Delivers x ds id bytes =
    (r : Received) × Run x ds r
    × (r.status ≡ complete)
    × (r.receiver.connection_id ≡ id)
    × (r.receiver.bytes ≡ bytes)

chunks_done-Delivers :
    (t : Transmission)
    → IsSound t
    → t.nb_chunks ≤ 2 ^ 31
    → (x : Receiver) (k n : ℕ) → IsReady t x k
    → k + n ≡ t.nb_chunks
    → Delivers x (chunks_done t k n) t.id t.bytes
chunks_done-Delivers t sound small x k zero ready e =
    let at_end : k ≡ t.nb_chunks = omega arith in
    let (r, taken, told, mine, same) = receive_done t sound x (subst (IsReady t x) at_end ready) in
    (r, last taken, told, mine, same)
chunks_done-Delivers t sound small x k (suc n) ready e =
    let (r, taken, ready') = receive_chunk t sound x k ready (omega arith) (omega arith) in
    let (r', taken', told, mine, same) =
      chunks_done-Delivers t sound small r.receiver (suc k) n ready' (omega arith) in
    (r', next taken taken', told, mine, same)

-- Where nothing is lost, a receiver that was in another connection takes the announcement, the
-- chunks in order and PDP_UDP_DONE without a fault, signals a complete packet at the end and then
-- holds the sender's bytes.
pub receive-Delivers :
    (t : Transmission) (x : Receiver) (body : List ℕ)
    → IsSound t
    → t.nb_chunks ≤ 2 ^ 31
    → length x.buf ≡ udp_bufsize
    → x.connection_id ≢ t.id
    → IsGenuine t (make_header t.id udp_new) body
    → Delivers x (framed (make_header t.id udp_new) body ∷ chunks_done t 0 t.nb_chunks) t.id t.bytes
receive-Delivers t x body sound small room elsewhere g =
    let (r, taken, ready) = receive_announcement t sound x body room elsewhere g in
    let (r', taken', told, mine, same) =
      chunks_done-Delivers t sound small r.receiver 0 t.nb_chunks ready (omega arith) in
    (r', next taken taken', told, mine, same)
