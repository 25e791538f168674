-- ===== src/Net/Resend.antt =====
-- The resend request of the receiver: which chunks it names, and in which places.
use native.Mathlib.Decide.{ℕ_discrete}
use mathlib.Core.List.{flat_map}
use mathlib.Core.Path.{ap₂}
use pdp.Base.{
  ℕ, zero, suc, ◌-◌, ◌≤◌, ◌<◌, ◌≡◌, ◌≢◌, refl, ap, ◌∙◌, sym, arith, true, List, [], ◌∷◌, ◌==◌,
  if◌then◌else◌, min, length, get_or, set, take, length-set, get_or-set_self, get_or-set_ne, eq→==,
  ne→==,
}
use pdp.Net.{Header, Datagram, framed, make_header, udp_resend, resend_max_chunks, write_u32}
use pdp.Net.Receiver.{Receiver, count_missing, next_missing, fill_resend, handle_done}

-- The numbers of the chunks that have not come in, in order; `n` is the number of the first one.
unfoldable pub missing_from : ℕ → List ℕ → List ℕ
missing_from n [] = []
missing_from n (c ∷ cs) = let rest = missing_from (suc n) cs in if c == 0 then n ∷ rest else rest

-- The search stops at the first missing chunk.
next_missing-missing_from :
    (n : ℕ) (cs : List ℕ)
    → 0 < count_missing cs
    → let found = next_missing n cs in
      (missing_from n cs ≡ found.0 ∷ missing_from (suc found.0) found.1)
      × (count_missing cs ≡ suc (count_missing found.1))
unfolding count_missing next_missing missing_from
next_missing-missing_from n [] h = absurd (omega arith)
next_missing-missing_from n (c ∷ cs) h = ground (arith, next_missing-missing_from (suc n) cs)

fill_resend-outside :
    (i n : ℕ) (cs out : List ℕ) (j : ℕ)
    → i ≤ j
    → get_or (fill_resend i n cs out) j 0 ≡ get_or out j 0
unfolding fill_resend
fill_resend-outside zero n cs out j h = refl
fill_resend-outside (suc i) n cs out j h =
    let found = next_missing n cs in
    fill_resend-outside i (suc found.0) found.1 (set out i found.0) j (omega arith)
    ∙ get_or-set_ne out i j found.0 0 (omega arith)

fill_resend_lem :
    (i n : ℕ) (cs out : List ℕ) (j : ℕ)
    → i ≤ count_missing cs
    → i ≤ length out
    → j < i
    → get_or (fill_resend i n cs out) j 0 ≡ get_or (missing_from n cs) (i - 1 - j) 0
unfolding fill_resend
fill_resend_lem zero n cs out j h h' less = absurd (omega arith)
fill_resend_lem (suc i) n cs out j h h' less =
    let found = next_missing n cs in
    let first = next_missing-missing_from n cs (omega arith) in
    elim (ℕ_discrete j i) [
      | yes last ↦
          fill_resend-outside i (suc found.0) found.1 (set out i found.0) j (omega arith)
          ∙ ap (λ m. get_or (set out i found.0) m 0) last
          ∙ get_or-set_self out i found.0 0 (omega arith)
          ∙ sym (ap₂ (λ l m. get_or l m 0) first.0 (at_end last))
      | no other ↦
          fill_resend_lem i (suc found.0) found.1 (set out i found.0) j (omega (arith, first.1))
            (omega (arith, length-set {0} out i found.0)) (omega arith)
          ∙ sym (ap₂ (λ l m. get_or l m 0) first.0 (before other))
    ]
  where
    at_end : j ≡ i → suc i - 1 - j ≡ 0
    at_end e = omega arith

    before : j ≢ i → suc i - 1 - j ≡ suc (i - 1 - j)
    before ne = omega arith

-- What the answer to PDP_UDP_DONE tells the sender.
pub record Request (x : Receiver) (out : Receiver × List Datagram) : Type 0 where
  -- How many chunks are asked for: all that are missing, as far as one datagram has room.
  pub size : ℕ
  pub bounded : size ≡ min (count_missing x.chunk_list) resend_max_chunks
  pub sent :
      out.1
      ≡ framed
          (make_header x.connection_id udp_resend)
          (flat_map write_u32 (take size out.0.resend_chunks))
        ∷ []
  -- They are the first missing ones, in falling order.
  pub named :
      (j : ℕ)
      → j < size
      → get_or out.0.resend_chunks j 0 ≡ get_or (missing_from 0 x.chunk_list) (size - 1 - j) 0
  pub finished : size ≡ 0 → out.0.receive_finished ≡ true
  pub unfinished : 0 < size → out.0.receive_finished ≡ x.receive_finished

-- On PDP_UDP_DONE for its own connection the receiver sends one request. It names the first missing
-- chunks, at most 364 of them, in falling order. A request that names none sets the mark of a finished
-- reception, and one that names some leaves that mark as it was. The list for the request has room
-- for 364 numbers.
pub handle_done-Request :
    (x : Receiver) (h : Header)
    → x.connection_id ≡ h.connection_id
    → length x.resend_chunks ≡ resend_max_chunks
    → Request x (handle_done x h)
unfolding handle_done
handle_done-Request x h e room =
    let n = min (count_missing x.chunk_list) resend_max_chunks in
    rw (eq→== _ _ e) (record {
      size = n;
      bounded = refl;
      sent = refl;
      named = λ j less.
          fill_resend_lem n 0 x.chunk_list x.resend_chunks j (omega arith) (omega arith) less;
      finished = λ none_left. ground arith;
      unfinished = λ some_left. ground arith;
    })

-- PDP_UDP_DONE of another connection is not answered, and changes nothing.
pub handle_done_stray :
    (x : Receiver) (h : Header) → x.connection_id ≢ h.connection_id → handle_done x h ≡ (x, [])
unfolding handle_done
handle_done_stray x h ne = rw (ne→== _ _ ne)
