-- ===== src/Net/Transfer.antt =====
-- What the network may do to one transmission: drop, repeat, delay and reorder its datagrams, and
-- mix in those of others. A receiver that signals a complete packet then holds the sender's bytes.
use native.Mathlib.Decide.{ℕ_discrete, dec_lt}
use native.Mathlib.Nat.{mod-add-div, mod-lt, mod-eq_of_lt}
use pdp.Base.{
  ℕ, zero, suc, ◌+◌, ◌-◌, ◌*◌, ◌/◌, ◌%◌, ◌^◌, ◌≤◌, ◌<◌, ◌≡◌, ◌≢◌, refl, ap, ◌∙◌, sym, arith, true,
  List, [], ◌∷◌, inl, inr, length, get_or, set, take, drop, replicate, length-take, length-drop,
  length-set, get_or-set_self, get_or-set_ne, eq_of_get_or, eq→==, ne→==, le→leb, lt→leb, leb, min,
}
use pdp.Net.{Header, framed, udp_new, udp_bufsize, read_u32, ok}
use pdp.Net.Copy.{
  write_at, length-write_at, get_or-write_at_inside, get_or-write_at_outside, get_or-take,
  get_or-drop,
}
use pdp.Net.Receiver.{Receiver, Input, arrived, handle_data, count_missing}

pub take_all : (xs : List ℕ) (n : ℕ) → length xs ≤ n → take n xs ≡ xs
take_all [] zero h = refl
take_all [] (suc n) h = refl
take_all (x ∷ xs) zero h = absurd (omega arith)
take_all (x ∷ xs) (suc n) h = ap (λ l. x ∷ l) (take_all xs n (omega arith))

pub get_or-replicate : (n i d : ℕ) → get_or (replicate n d) i d ≡ d
get_or-replicate zero i d = refl
get_or-replicate (suc n) zero d = refl
get_or-replicate (suc n) (suc i) d = get_or-replicate n i d

-- With no chunk missing every entry of the list is set.
pub count_missing-zero :
    (cs : List ℕ) (i : ℕ) → count_missing cs ≡ 0 → i < length cs → get_or cs i 0 ≢ 0
unfolding count_missing
count_missing-zero [] i e h = absurd (omega arith)
count_missing-zero (c ∷ cs) zero e h = ground arith
count_missing-zero (c ∷ cs) (suc i) e h = ground (arith, count_missing-zero cs i)

-- One transmission: its connection, its bytes and the chunk size.
pub record Transmission : Type 0 where
  pub id : ℕ
  pub bytes : List ℕ
  pub chunk_size : ℕ
  pub nb_chunks : ℕ

-- A transmission that the protocol can carry.
pub record IsSound (t : Transmission) : Type 0 where
  pub id_valid : t.id ≢ 0
  pub size_word : length t.bytes < 2 ^ 32
  pub chunk_fits : t.chunk_size ≤ udp_bufsize
  pub chunk_some : 0 < t.chunk_size
  -- The chunks reach to the end of the bytes, and each starts inside of them.
  pub covered : length t.bytes ≤ t.chunk_size * t.nb_chunks
  pub inside : (i : ℕ) → i < t.nb_chunks → t.chunk_size * i < length t.bytes

abbrev pub chunk_at : Transmission → ℕ → List ℕ
chunk_at t i = take t.chunk_size (drop (t.chunk_size * i) t.bytes)

-- The datagrams under the connection's number are the sender's; of others nothing is known.
pub record IsGenuine (t : Transmission) (h : Header) (body : List ℕ) : Type 0 where
  pub announces :
      h.connection_id ≡ t.id
      → h.sequence_number ≡ udp_new
      → (12 ≤ length body)
        × (length body ≤ udp_bufsize)
        × (read_u32 body 0 ≡ length t.bytes)
        × (read_u32 body 4 ≡ t.nb_chunks)
        × (read_u32 body 8 ≡ t.chunk_size)
  pub carries :
      h.connection_id ≡ t.id
      → h.sequence_number < 2 ^ 31
      → (h.sequence_number < t.nb_chunks) × (body ≡ chunk_at t h.sequence_number)

abbrev pub GenuineInput : Transmission → Input → Type 0
GenuineInput t (arrived (framed h body)) = IsGenuine t h body
GenuineInput t _ = Unit {0}

-- The receiver in the middle of the transmission.
pub record IsReceiving (t : Transmission) (x : Receiver) : Type 0 where
  pub count : x.nb_chunks ≡ t.nb_chunks
  pub chunk : x.chunk_size ≡ t.chunk_size
  pub size : x.data_size ≡ length t.bytes
  pub buffer : length x.bytes ≡ length t.bytes
  pub listed : length x.chunk_list ≡ t.nb_chunks
  -- A chunk that is marked has been copied to its place.
  pub copied :
      (i j : ℕ)
      → get_or x.chunk_list i 0 ≢ 0
      → t.chunk_size * i ≤ j
      → j < t.chunk_size * i + t.chunk_size
      → j < length t.bytes
      → get_or x.bytes j 0 ≡ get_or t.bytes j 0
  pub finished : x.receive_finished ≡ true → (i : ℕ) → i < t.nb_chunks → get_or x.chunk_list i 0 ≢ 0

pub record IsConsistent (t : Transmission) (x : Receiver) : Type 0 where
  pub room : length x.buf ≡ udp_bufsize
  pub current : x.connection_id ≡ t.id → IsReceiving t x

module _ (t : Transmission) (sound : IsSound t) where
  -- With every chunk copied the buffer is the sender's.
  pub all_copied : (x : Receiver) → IsReceiving t x → x.receive_finished ≡ true → x.bytes ≡ t.bytes
  all_copied x r done = eq_of_get_or 0 x.bytes t.bytes r.buffer λ j h.
      let i : ℕ = j / t.chunk_size in
      let parts : j % t.chunk_size + t.chunk_size * i ≡ j = mod-add-div j t.chunk_size in
      let rest : j % t.chunk_size < t.chunk_size = mod-lt j sound.chunk_some in
      let turn : i < t.nb_chunks = grind (arith, sound.covered, r.buffer) in
      r.copied i j (r.finished done i turn) (omega arith) (omega arith) (omega (arith, r.buffer))

  pub length-chunk_at :
      (i : ℕ) → length (chunk_at t i) ≡ min t.chunk_size (length t.bytes - t.chunk_size * i)
  length-chunk_at i = omega (
    arith,
    length-take t.chunk_size (drop (t.chunk_size * i) t.bytes),
    length-drop (t.chunk_size * i) t.bytes,
  )

  get_or-chunk_at :
      (i j : ℕ)
      → t.chunk_size * i ≤ j
      → j < t.chunk_size * i + t.chunk_size
      → get_or (chunk_at t i) (j - t.chunk_size * i) 0 ≡ get_or t.bytes j 0
  get_or-chunk_at i j lo hi =
      get_or-take (drop (t.chunk_size * i) t.bytes) t.chunk_size _ 0 (omega arith)
      ∙ get_or-drop t.bytes (t.chunk_size * i) _ 0
      ∙ ap (λ n. get_or t.bytes n 0)
          (let e : t.chunk_size * i + (j - t.chunk_size * i) ≡ j = omega arith in e)

  -- The receiver after a chunk has been copied and marked.
  abbrev pub with_chunk : Receiver → ℕ → Receiver
  with_chunk x i = record x {
    bytes = write_at x.bytes (t.chunk_size * i) (chunk_at t i);
    chunk_list = set x.chunk_list i 1;
  }

  pub handle_data-with_chunk :
      (x : Receiver) (h : Header)
      → IsReceiving t x
      → x.connection_id ≡ t.id
      → h.connection_id ≡ t.id
      → h.sequence_number < t.nb_chunks
      → take x.buf_size x.buf ≡ chunk_at t h.sequence_number
      → x.buf_size ≡ length (chunk_at t h.sequence_number)
      → handle_data x h ≡ ok (with_chunk x h.sequence_number)
  unfolding handle_data
  handle_data-with_chunk x h r mine same seq got len =
      let i = h.sequence_number in
      let word : (x.chunk_size * i) % 2 ^ 32 ≡ t.chunk_size * i =
        ap (λ c. (c * i) % 2 ^ 32) r.chunk
        ∙ mod-eq_of_lt (omega (arith, sound.inside i seq, sound.size_word)) in
      let fits : leb (((x.chunk_size * i) % 2 ^ 32 + x.buf_size) % 2 ^ 32) x.data_size ≡ true =
        le→leb _ _ (
          omega
            (arith, word, len, length-chunk_at i, sound.inside i seq, sound.size_word, r.size)) in
      rw (
        ne→== x.connection_id 0 (λ e. sound.id_valid (sym mine ∙ e)),
        eq→== x.connection_id h.connection_id (mine ∙ sym same),
        lt→leb x.nb_chunks i (omega (arith, r.count)),
        fits,
        word,
        got,
      )

  pub with_chunk-IsReceiving :
      (x : Receiver) (i : ℕ) → IsReceiving t x → i < t.nb_chunks → IsReceiving t (with_chunk x i)
  with_chunk-IsReceiving x i r seq = record {
    count = r.count;
    chunk = r.chunk;
    size = r.size;
    buffer = length-write_at x.bytes (t.chunk_size * i) (chunk_at t i) ∙ r.buffer;
    listed = length-set x.chunk_list i 1 ∙ r.listed;
    copied = λ j n marked lo hi inside. elim (dec_lt n (t.chunk_size * i)) [
      | yes before ↦
          get_or-write_at_outside x.bytes _ (chunk_at t i) n (inl before)
          ∙ r.copied j n (marked_before j marked (λ e. earlier j n e lo before)) lo hi inside
      | no reached ↦ elim (dec_lt n (t.chunk_size * i + length (chunk_at t i))) [
        | yes within ↦
            get_or-write_at_inside x.bytes _ (chunk_at t i) n
              (omega (arith, length-chunk_at i, r.buffer, sound.inside i seq)) (omega arith) within
            ∙ get_or-chunk_at i n (omega arith) (omega (arith, length-chunk_at i))
        | no after ↦
            get_or-write_at_outside x.bytes _ (chunk_at t i) n (inr (omega arith))
            ∙ r.copied j n (marked_before j marked (λ e. later j n e hi inside (omega arith))) lo hi
                inside
      ]
    ];
    finished = λ done j h e. elim (ℕ_discrete j i) [
      | yes same ↦ absurd (
          omega (
            arith,
            ap (λ m. get_or (set x.chunk_list i 1) m 0) same,
            get_or-set_self x.chunk_list i 1 0 (omega (arith, r.listed)),
          ))
      | no other ↦
          r.finished done j h (sym (get_or-set_ne x.chunk_list i j 1 0 (λ p. other (sym p))) ∙ e)
    ];
  }
    where
      marked_before :
          (j : ℕ) → get_or (set x.chunk_list i 1) j 0 ≢ 0 → j ≢ i → get_or x.chunk_list j 0 ≢ 0
      marked_before j marked ne e =
          marked (get_or-set_ne x.chunk_list i j 1 0 (λ p. ne (sym p)) ∙ e)

      earlier : (j n : ℕ) → j ≡ i → t.chunk_size * j ≤ n → n < t.chunk_size * i → ⊥
      earlier j n e lo before = omega (arith, ap (λ m. t.chunk_size * m) e)

      later :
          (j n : ℕ)
          → j ≡ i
          → n < t.chunk_size * j + t.chunk_size
          → n < length t.bytes
          → t.chunk_size * i + length (chunk_at t i) ≤ n
          → ⊥
      later j n e hi inside after = omega (arith, ap (λ m. t.chunk_size * m) e, length-chunk_at i)
