-- ===== src/Net/Delivery.antt =====
-- The receiver's handlers keep it consistent with the transmission, and a completed one delivers.
use mathlib.Core.Path.{subst}
use pdp.Base.{
  ℕ, ◌+◌, ◌-◌, ◌^◌, ◌≤◌, ◌<◌, ◌≡◌, ◌≢◌, refl, ap, ◌∙◌, sym, arith, true, not, ◌&&◌, List, ◌==◌, inl,
  inr, Bool-cases, length, get_or, take, length-take, length-replicate, eq_of_get_or,
}
use native.Mathlib.Decide.{ℕ_discrete}
use pdp.Net.{Header, Datagram, framed, runt, udp_new, udp_bufsize, read_u32, ok}
use pdp.Net.Copy.{write_at, length-write_at, get_or-write_at_inside, get_or-take}
use pdp.Net.Receiver.{
  Receiver, store_datagram, prepare_for_reception, handle_new, handle_done, handle_data,
  signal_arrival, count_missing,
}
use pdp.Net.Transfer.{
  Transmission, IsSound, IsGenuine, IsReceiving, IsConsistent, get_or-replicate, count_missing-zero,
  length-chunk_at, handle_data-with_chunk, with_chunk-IsReceiving,
}

-- What the buffer holds after a datagram whose body fits.
pub record Holds (x : Receiver) (body : List ℕ) : Type 0 where
  pub room : length x.buf ≡ udp_bufsize
  pub filled : x.buf_size ≡ length body
  pub start : (i : ℕ) → i < length body → get_or x.buf i 0 ≡ get_or body i 0

pub store_datagram-Holds :
    (x : Receiver) (h : Header) (body : List ℕ)
    → length x.buf ≡ udp_bufsize
    → Holds (store_datagram x (framed h body)) (take udp_bufsize body)
unfolding store_datagram
store_datagram-Holds x h body room =
    let b = take udp_bufsize body in
    let fits : length b ≤ udp_bufsize = omega (arith, length-take udp_bufsize body) in
    record {
      room = length-write_at x.buf 0 b ∙ room;
      filled = refl;
      start = λ i less.
          get_or-write_at_inside x.buf 0 b i (omega arith) (omega arith) (omega arith)
          ∙ ap (λ n. get_or b n 0) (let e : i - 0 ≡ i = omega arith in e);
    }

read_u32-Holds :
    {x : Receiver} {body : List ℕ} (i : ℕ)
    → Holds x body
    → i + 3 < length body
    → read_u32 x.buf i ≡ read_u32 body i
unfolding read_u32
read_u32-Holds i b h = omega (
  arith,
  b.start i (omega arith),
  b.start (i + 1) (omega arith),
  b.start (i + 2) (omega arith),
  b.start (i + 3) (omega arith),
)

pub take-Holds :
    {x : Receiver} {body : List ℕ}
    → Holds x body
    → length body ≤ udp_bufsize
    → take x.buf_size x.buf ≡ body
take-Holds {x} {body} b h =
    eq_of_get_or 0 _ _ (omega (arith, length-take x.buf_size x.buf, b.room, b.filled)) λ i less.
      let inside : i < length body =
        omega (arith, length-take x.buf_size x.buf, b.room, b.filled) in
      get_or-take x.buf x.buf_size i 0 (omega (arith, b.filled)) ∙ b.start i inside

pub handle_data_keeps :
    (x : Receiver) (h : Header) {x' : Receiver}
    → handle_data x h ≡ ok x'
    → (x'.connection_id ≡ x.connection_id) × (x'.buf ≡ x.buf)
unfolding handle_data
handle_data_keeps x h e = ground arith

module _ (t : Transmission) (sound : IsSound t) where
  pub prepare_for_reception-IsReceiving :
      (x : Receiver) (h : Header) (body : List ℕ)
      → Holds x body
      → 12 ≤ length body
      → read_u32 body 0 ≡ length t.bytes
      → read_u32 body 4 ≡ t.nb_chunks
      → read_u32 body 8 ≡ t.chunk_size
      → IsReceiving t (prepare_for_reception x h)
  unfolding prepare_for_reception
  prepare_for_reception-IsReceiving x h body b long e₀ e₄ e₈ =
      let size : read_u32 x.buf 0 ≡ length t.bytes = read_u32-Holds 0 b (omega arith) ∙ e₀ in
      let count : read_u32 x.buf 4 ≡ t.nb_chunks = read_u32-Holds 4 b (omega arith) ∙ e₄ in
      record {
        count = count;
        chunk = read_u32-Holds 8 b (omega arith) ∙ e₈;
        size = size;
        buffer = length-replicate (read_u32 x.buf 0) 0 ∙ size;
        listed = length-replicate (read_u32 x.buf 4) 0 ∙ count;
        copied =
            λ i j marked lo hi inside. absurd (marked (get_or-replicate (read_u32 x.buf 4) i 0));
        finished = λ done. cc;
      }

  -- `_handle_PDP_UDP_NEW`, for whatever connection.
  pub handle_new-IsConsistent :
      (x : Receiver) (h : Header) (body : List ℕ)
      → IsConsistent t x
      → IsGenuine t h body
      → h.sequence_number ≡ udp_new
      → Holds x body
      → IsConsistent t (handle_new x h).0
  unfolding handle_new
  handle_new-IsConsistent x h body c g e b =
      elim (Bool-cases (x.connection_id == h.connection_id)) [
        | inl same ↦ rw same c
        | inr new ↦ rw new (record {
          room = c.room;
          current = λ mine.
              let (long, fits, e₀, e₄, e₈) = g.announces mine e in
              prepare_for_reception-IsReceiving x h body b long e₀ e₄ e₈;
        })
      ]

  -- `_handle_PDP_UDP_DONE`, for whatever connection.
  pub handle_done-IsConsistent :
      (x : Receiver) (h : Header) → IsConsistent t x → IsConsistent t (handle_done x h).0
  unfolding handle_done
  handle_done-IsConsistent x h c = elim (Bool-cases (x.connection_id == h.connection_id)) [
    | inr other ↦ rw other c
    | inl same ↦ rw same (record {
      room = c.room;
      current = λ mine.
          let r = c.current mine in
          record {
            count = r.count;
            chunk = r.chunk;
            size = r.size;
            buffer = r.buffer;
            listed = r.listed;
            copied = r.copied;
            finished = λ done i inside. elim (ℕ_discrete (count_missing x.chunk_list) 0) [
              | yes none_left ↦
                  count_missing-zero x.chunk_list i none_left (omega (arith, r.listed))
              | no some_left ↦ r.finished (ground arith) i inside
            ];
          };
    })
  ]

  signalled-IsConsistent :
      (x : Receiver) → IsConsistent t x → IsConsistent t (record x { packet_transferred = true })
  signalled-IsConsistent x c = record {
    room = c.room;
    current = λ mine.
        let r = c.current mine in
        record {
          count = r.count;
          chunk = r.chunk;
          size = r.size;
          buffer = r.buffer;
          listed = r.listed;
          copied = r.copied;
          finished = r.finished;
        };
  }

  pub signal_arrival-IsConsistent :
      (x : Receiver) (out : List Datagram)
      → IsConsistent t x
      → IsConsistent t (signal_arrival (x, out)).receiver
  unfolding signal_arrival
  signal_arrival-IsConsistent x out c =
      elim (Bool-cases (x.receive_finished && not x.packet_transferred)) [
        | inl due ↦ rw due (signalled-IsConsistent x c)
        | inr other ↦ rw other c
      ]

  handle_data_stray :
      (x : Receiver) (h : Header)
      → x.connection_id ≡ t.id
      → h.connection_id ≢ t.id
      → handle_data x h ≡ ok x
  unfolding handle_data
  handle_data_stray x h mine stray = ground arith

  -- `_handle_UDP_DATA`, for whatever connection.
  pub handle_data-IsConsistent :
      (x : Receiver) (h : Header) (body : List ℕ) {x' : Receiver}
      → IsConsistent t x
      → IsGenuine t h body
      → h.sequence_number < 2 ^ 31
      → Holds x body
      → handle_data x h ≡ ok x'
      → IsConsistent t x'
  handle_data-IsConsistent x h body {x'} c g e b done = elim (ℕ_discrete x.connection_id t.id) [
    | no foreign ↦ record {
      room = ap length kept.1 ∙ c.room;
      current = λ mine. absurd (foreign (sym kept.0 ∙ mine));
    }
    | yes mine ↦ elim (ℕ_discrete h.connection_id t.id) [
      | no stray ↦ subst (IsConsistent t) (ground (arith, handle_data_stray x h mine stray)) c
      | yes same ↦
          let (seq, is_chunk) = g.carries same e in
          let fits : length body ≤ udp_bufsize = omega (
            arith,
            ap length is_chunk,
            length-chunk_at t sound h.sequence_number,
            sound.chunk_fits,
          ) in
          let accepted =
            handle_data-with_chunk t sound x h (c.current mine) mine same seq
              (take-Holds b fits ∙ is_chunk) (b.filled ∙ ap length is_chunk) in
          subst (IsConsistent t) (ground (arith, accepted)) (record {
            room = c.room;
            current =
                λ mine. with_chunk-IsReceiving t sound x h.sequence_number (c.current mine) seq;
          })
    ]
  ]
    where
      kept : (x'.connection_id ≡ x.connection_id) × (x'.buf ≡ x.buf)
      kept = handle_data_keeps x h done

  refilled-IsConsistent :
      (x : Receiver) (b : List ℕ) (n : ℕ)
      → length b ≡ udp_bufsize
      → IsConsistent t x
      → IsConsistent t (record x { buf = b; buf_size = n })
  refilled-IsConsistent x b n room c = record {
    room = room;
    current = λ mine.
        let r = c.current mine in
        record {
          count = r.count;
          chunk = r.chunk;
          size = r.size;
          buffer = r.buffer;
          listed = r.listed;
          copied = r.copied;
          finished = r.finished;
        };
  }

  pub store_datagram-IsConsistent :
      (x : Receiver) (d : Datagram) → IsConsistent t x → IsConsistent t (store_datagram x d)
  unfolding store_datagram
  store_datagram-IsConsistent x (runt n) c = refilled-IsConsistent x x.buf _ c.room c
  store_datagram-IsConsistent x (framed h body) c =
      refilled-IsConsistent x (write_at x.buf 0 (take udp_bufsize body)) _
        (length-write_at x.buf 0 (take udp_bufsize body) ∙ c.room) c
