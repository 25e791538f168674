-- ===== src/Net/Chunks.antt =====
-- The sender cuts its bytes into the chunks of a sound transmission, and all that it sends is
-- genuine: the assumption under which the receiver's side is proved.
use native.Mathlib.Nat.{mod-add-div, mod-lt, mod-eq_of_lt, mul_comm, div-le_self}
use native.Mathlib.Decide.{dec_lt}
use mathlib.Core.Path.{subst, ap₂}
use pdp.Base.{
  ℕ, zero, suc, ◌+◌, ◌-◌, ◌*◌, ◌/◌, ◌%◌, ◌^◌, ◌≤◌, ◌<◌, ◌≡◌, ◌≢◌, refl, ap, ◌∙◌, sym, arith, true,
  false, List, [], ◌∷◌, ◌++◌, ltb, leb, length, take, drop, length-drop, length-append, lt→ltb,
  le→ltb, le→leb,
}
use pdp.Net.{Datagram, framed, runt, make_header, udp_bufsize, read_u32, Outcome, ok, fault}
use pdp.Net.Transfer.{Transmission, IsSound, IsGenuine, chunk_at, take_all}
use pdp.Net.Sender.{
  Sender, chunk_count, prepare, header_packet, send_chunk, send_list, send_chunks, done_packet,
  count_up,
}

-- The transmission that a sender is in.
abbrev pub transmission : Sender → Transmission
transmission x = record {
  id = x.connection_id;
  bytes = x.bytes;
  chunk_size = x.chunk_size;
  nb_chunks = x.nb_chunks;
}

-- A sender in the middle of a transmission that the protocol can carry.
pub record IsSending (x : Sender) : Type 0 where
  pub sound : IsSound (transmission x)
  pub size : x.data_size ≡ length x.bytes
  pub room : length x.bytes + x.chunk_size ≤ 2 ^ 32
  pub count : x.nb_chunks ≤ length x.bytes
  pub type_fits : length x.data_type + 13 ≤ udp_bufsize

abbrev pub GenuineDatagram : Transmission → Datagram → Type 0
GenuineDatagram t (runt n) = Unit {0}
GenuineDatagram t (framed h body) = IsGenuine t h body

abbrev pub AllGenuine : Transmission → List Datagram → Type 0
AllGenuine t [] = Unit {0}
AllGenuine t (d ∷ ds) = GenuineDatagram t d × AllGenuine t ds

pub AllGenuine-append :
    (t : Transmission) (xs ys : List Datagram)
    → AllGenuine t xs
    → AllGenuine t ys
    → AllGenuine t (xs ++ ys)
AllGenuine-append t [] ys hx hy = hy
AllGenuine-append t (x ∷ xs) ys hx hy = (hx.0, AllGenuine-append t xs ys hx.1 hy)

-- The number of chunks is the quotient, rounded up.
chunk_count_lem :
    (size chunk : ℕ)
    → 0 < size
    → size < 2 ^ 32
    → 0 < chunk
    → chunk_count size chunk ≡ (size - 1) / chunk + 1
unfolding chunk_count
chunk_count_lem size chunk some word pos =
    let less : (size + 2 ^ 32 - 1) % 2 ^ 32 ≡ size - 1 = omega arith in
    let small : (size - 1) / chunk ≤ size - 1 = div-le_self (size - 1) chunk in
    ap (λ n. (n / chunk + 1) % 2 ^ 32) less ∙ mod-eq_of_lt (omega arith)

-- What `_prepare_for_new_transmission` starts is sound, for data that is not empty and that leaves
-- one chunk of space below 2 ^ 32.
pub prepare-IsSending :
    (x : Sender) (id : ℕ) (type bytes : List ℕ)
    → id ≢ 0
    → 0 < length bytes
    → 0 < x.udp_payload_size
    → x.udp_payload_size ≤ udp_bufsize
    → length bytes + x.udp_payload_size ≤ 2 ^ 32
    → length type + 13 ≤ udp_bufsize
    → IsSending (prepare x id type (length bytes) bytes)
unfolding prepare
prepare-IsSending x id type bytes valid some pos fits room short =
    let c = x.udp_payload_size in
    let n = length bytes in
    let q = (n - 1) / c in
    let count : chunk_count n c ≡ q + 1 = chunk_count_lem n c some (omega arith) pos in
    let parts : (n - 1) % c + c * q ≡ n - 1 = mod-add-div (n - 1) c in
    let rest : (n - 1) % c < c = mod-lt (n - 1) pos in
    record {
      sound = record {
        id_valid = valid;
        size_word = omega arith;
        chunk_fits = fits;
        chunk_some = pos;
        covered = omega (arith, ap (λ m. c * m) count);
        inside = λ i h. below i (omega (arith, count)) (omega arith);
      };
      size = refl;
      room = room;
      count = omega (arith, count, div-le_self (n - 1) c);
      type_fits = short;
    }
  where
    below :
        (i : ℕ)
        → i ≤ (length bytes - 1) / x.udp_payload_size
        → x.udp_payload_size * ((length bytes - 1) / x.udp_payload_size) < length bytes
        → x.udp_payload_size * i < length bytes
    below i h top = grind arith

send_list-nil : (x : Sender) {ds : List Datagram} → send_list x [] ≡ ok ds → [] ≡ ds
unfolding send_list
send_list-nil x e = cc

send_list-cons :
    (x : Sender) (seq : ℕ) (seqs : List ℕ) {ds : List Datagram}
    → send_list x (seq ∷ seqs) ≡ ok ds
    → (d : Datagram) × (rest : List Datagram) × (send_chunk x seq ≡ ok d)
      × (send_list x seqs ≡ ok rest)
      × (d ∷ rest ≡ ds)
unfolding send_list
send_list-cons x seq seqs {ds} e = split (send_chunk x seq) (send_list x seqs) refl refl
  where
    split :
        (first : Outcome Datagram) (others : Outcome (List Datagram))
        → send_chunk x seq ≡ first
        → send_list x seqs ≡ others
        → (d : Datagram) × (rest : List Datagram) × (send_chunk x seq ≡ ok d)
          × (send_list x seqs ≡ ok rest)
          × (d ∷ rest ≡ ds)
    split (ok d) (ok rest) e₁ e₂ = (d, rest, e₁, e₂, ground arith)
    split (ok d) fault e₁ e₂ = absurd (ground arith)
    split fault others e₁ e₂ = absurd (ground arith)

module _ (x : Sender) (sending : IsSending x) where
  pub header_packet-Genuine : GenuineDatagram (transmission x) (header_packet x)
  unfolding header_packet read_u32
  header_packet-Genuine = record {
    announces = λ mine e. (
      omega arith,
      omega (arith, sending.type_fits, length-append {0} x.data_type (0 ∷ [])),
      omega (arith, sending.size, sending.room),
      omega (arith, sending.count, sending.room),
      omega (arith, sending.room),
    );
    carries = λ mine h. absurd (omega arith);
  }

  pub done_packet-Genuine : GenuineDatagram (transmission x) (done_packet x)
  unfolding done_packet
  done_packet-Genuine = record {
    announces = λ mine e. absurd (omega arith);
    carries = λ mine h. absurd (omega arith);
  }

  -- On a chunk of the transmission no assertion fails, and the datagram carries just that chunk.
  pub send_chunk-chunk_at :
      (seq : ℕ)
      → seq < x.nb_chunks
      → send_chunk x seq
        ≡ ok (framed (make_header x.connection_id seq) (chunk_at (transmission x) seq))
  unfolding send_chunk
  send_chunk-chunk_at seq inside =
      let c = x.chunk_size in
      let start : c * seq < length x.bytes = sending.sound.inside seq inside in
      let offset : (seq * c) % 2 ^ 32 ≡ c * seq =
        ap (λ n. n % 2 ^ 32) (mul_comm seq c)
        ∙ mod-eq_of_lt (omega (arith, sending.sound.size_word)) in
      let first : ltb seq x.nb_chunks ≡ true = lt→ltb _ _ inside in
      let second : ltb (c * seq) x.data_size ≡ true = lt→ltb _ _ (omega (arith, sending.size)) in
      let whole = drop (c * seq) x.bytes in
      let left : length whole ≡ length x.bytes - c * seq = length-drop (c * seq) x.bytes in
      let datagram : List ℕ → Outcome Datagram =
        λ b. ok (framed (make_header x.connection_id seq) b) in
      rw offset (elim (dec_lt (length x.bytes) (c * seq + c)) [
        | yes last ↦
            let short : ltb x.data_size ((c * seq + c) % 2 ^ 32) ≡ true =
              lt→ltb _ _ (omega (arith, sending.size, sending.room)) in
            let third : leb (x.data_size - c * seq) udp_bufsize ≡ true =
              le→leb _ _ (omega (arith, sending.size, sending.sound.chunk_fits)) in
            let fourth : leb ((c * seq + (x.data_size - c * seq)) % 2 ^ 32) x.data_size ≡ true =
              le→leb _ _ (omega (arith, sending.size, sending.room)) in
            rw (short, first, second, third, fourth)
              (ap datagram (
                take_all whole _ (omega (arith, left, sending.size))
                ∙ sym (take_all whole c (omega (arith, left)))))
        | no middle ↦
            let long : ltb x.data_size ((c * seq + c) % 2 ^ 32) ≡ false =
              le→ltb _ _ (omega (arith, sending.size, sending.room)) in
            let third : leb c udp_bufsize ≡ true = le→leb _ _ sending.sound.chunk_fits in
            let fourth : leb ((c * seq + c) % 2 ^ 32) x.data_size ≡ true =
              le→leb _ _ (omega (arith, sending.size, sending.room)) in
            rw (long, first, second, third, fourth)
      ])

  -- A number out of range fails the assertion.
  send_chunk_outside : (seq : ℕ) → x.nb_chunks ≤ seq → send_chunk x seq ≡ fault
  unfolding send_chunk
  send_chunk_outside seq h = rw (le→ltb seq x.nb_chunks h)

  send_chunk-Genuine :
      (seq : ℕ) {d : Datagram} → send_chunk x seq ≡ ok d → GenuineDatagram (transmission x) d
  send_chunk-Genuine seq {d} e = elim (dec_lt seq x.nb_chunks) [
    | no outside ↦ absurd (cc (send_chunk_outside seq (omega arith)))
    | yes inside ↦
        let is_chunk = send_chunk-chunk_at seq inside in
        let same : framed (make_header x.connection_id seq) (chunk_at (transmission x) seq) ≡ d =
          cc in
        subst (GenuineDatagram (transmission x)) same (record {
          announces = λ mine new.
              absurd (omega (arith, sending.count, sending.room, sending.sound.chunk_some));
          carries = λ mine h. (inside, refl);
        })
  ]

  -- All that one burst sends is genuine.
  pub send_list-Genuine :
      (seqs : List ℕ) {ds : List Datagram}
      → send_list x seqs ≡ ok ds
      → AllGenuine (transmission x) ds
  send_list-Genuine [] e = subst (AllGenuine (transmission x)) (send_list-nil x e) tt
  send_list-Genuine (seq ∷ seqs) {ds} e =
      let (d, rest, first, others, same) = send_list-cons x seq seqs e in
      subst (AllGenuine (transmission x)) same
        (send_chunk-Genuine seq first, send_list-Genuine seqs others)

  -- The datagrams of `n` chunks from number `i` on.
  abbrev pub burst : ℕ → ℕ → List Datagram
  burst i zero = []
  burst i (suc n) =
      framed (make_header x.connection_id i) (chunk_at (transmission x) i) ∷ burst (suc i) n

  pub send_list-burst :
      (i n : ℕ) → i + n ≤ x.nb_chunks → send_list x (count_up i n) ≡ ok (burst i n)
  unfolding send_list
  send_list-burst i zero h = refl
  send_list-burst i (suc n) h =
      rw (send_chunk-chunk_at i (omega arith), send_list-burst (suc i) n (omega arith), send_list)

pub take-count_up : (i n : ℕ) → take n (count_up i n) ≡ count_up i n
take-count_up i zero = refl
take-count_up i (suc n) = ap (λ l. i ∷ l) (take-count_up (suc i) n)

-- The first burst after `_prepare_for_new_transmission` consists of all chunks in their order, and
-- no assertion fails.
pub send_chunks-burst :
    (x : Sender) (sending : IsSending x)
    → x.chunk_list ≡ count_up 0 x.nb_chunks
    → x.chunk_list_size ≡ x.nb_chunks
    → send_chunks x ≡ ok (burst x sending 0 x.nb_chunks)
unfolding send_chunks
send_chunks-burst x sending list size =
    ap₂ (λ n l. send_list x (take n l)) size list
    ∙ ap (send_list x) (take-count_up 0 x.nb_chunks)
    ∙ send_list-burst x sending 0 x.nb_chunks (omega arith)
