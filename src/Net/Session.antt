-- ===== src/Net/Session.antt =====
-- The life of a receiver: whatever comes in, a packet that it signals is the sender's.
use mathlib.Core.Path.{subst}
use pdp.Base.{
  ℕ, ◌^◌, ◌≤◌, ◌≡◌, refl, ap, ◌∙◌, sym, arith, true, false, List, [], ◌==◌, inl, inr, Bool-cases,
  length, take, leb, length-replicate, leb→lt, ==→eq,
}
use pdp.Net.{
  Header, Datagram, framed, runt, is_udp_header, udp_new, udp_done, udp_bufsize, Outcome, ok, fault,
}
use pdp.Net.Receiver.{
  Receiver, receiver_new, receiver_reset, Input, arrived, select_error, timed_out, recv_error,
  Status, nothing, complete, Received, answer, store_datagram, handle_done, handle_data,
  signal_arrival, control, dispatch, receive,
}
use pdp.Net.Transfer.{
  Transmission, IsSound, IsGenuine, GenuineInput, IsConsistent, all_copied, take_all,
  length-chunk_at,
}
use pdp.Net.Delivery.{
  Holds, handle_new-IsConsistent, handle_done-IsConsistent, signal_arrival-IsConsistent,
  handle_data-IsConsistent, store_datagram-Holds, store_datagram-IsConsistent,
}

-- A control datagram does not fault.
pub dispatch-control :
    (x : Receiver) (h : Header)
    → leb (2 ^ 31) h.sequence_number ≡ true
    → dispatch x h ≡ ok (control x h)
unfolding dispatch
dispatch-control x h e = rw e

-- A data datagram signals nothing.
dispatch_data :
    (x : Receiver) (h : Header) {r : Received}
    → leb (2 ^ 31) h.sequence_number ≡ false
    → dispatch x h ≡ ok r
    → (x' : Receiver) × (handle_data x h ≡ ok x') × (r ≡ answer (x', []))
unfolding dispatch
dispatch_data x h {r} e done = split (handle_data x h) refl
  where
    split :
        (o : Outcome Receiver)
        → handle_data x h ≡ o
        → (x' : Receiver) × (handle_data x h ≡ ok x') × (r ≡ answer (x', []))
    split (ok x') e' = (x', e', ground arith)
    split fault e' = absurd (ground arith)

module _ (t : Transmission) (sound : IsSound t) where
  IsGenuine-take :
      {h : Header} {body : List ℕ} → IsGenuine t h body → IsGenuine t h (take udp_bufsize body)
  IsGenuine-take {h} {body} g = record {
    announces = λ mine e. let a = g.announces mine e in rw (take_all body udp_bufsize a.1) a;
    carries = λ mine e.
        let (inside, is_chunk) = g.carries mine e in
        let fits : length body ≤ udp_bufsize = omega (
          arith,
          ap length is_chunk,
          length-chunk_at t sound h.sequence_number,
          sound.chunk_fits,
        ) in
        (inside, take_all body udp_bufsize fits ∙ is_chunk);
  }

  control-IsConsistent :
      (x : Receiver) (h : Header) (body : List ℕ)
      → IsConsistent t x
      → IsGenuine t h body
      → Holds x body
      → IsConsistent t (control x h).receiver
  unfolding control
  control-IsConsistent x h body c g b = elim (Bool-cases (h.sequence_number == udp_new)) [
    | inl new ↦ rw new (handle_new-IsConsistent t sound x h body c g (==→eq _ _ new) b)
    | inr other ↦ elim (Bool-cases (h.sequence_number == udp_done)) [
      | inl done ↦
          rw (other, done)
            (signal_arrival-IsConsistent t sound _ _ (handle_done-IsConsistent t sound x h c))
      | inr unknown ↦ rw (other, unknown) c
    ]
  ]

  dispatch-IsConsistent :
      (x : Receiver) (h : Header) (body : List ℕ) {r : Received}
      → IsConsistent t x
      → IsGenuine t h body
      → Holds x body
      → dispatch x h ≡ ok r
      → IsConsistent t r.receiver
  dispatch-IsConsistent x h body {r} c g b e = elim (Bool-cases (leb (2 ^ 31) h.sequence_number)) [
    | inl negative ↦
        let same : control x h ≡ r = cc (dispatch-control x h negative) in
        subst (λ (q : Received). IsConsistent t q.receiver) same
          (control-IsConsistent x h body c g b)
    | inr chunk ↦
        let (x', stored, same) = dispatch_data x h chunk e in
        subst (λ (q : Received). IsConsistent t q.receiver) (sym same)
          (handle_data-IsConsistent t sound x h body c g (leb→lt _ _ chunk) b stored)
  ]

  same_outcome :
      {a r : Received} → ok a ≡ ok r → IsConsistent t a.receiver → IsConsistent t r.receiver
  same_outcome {a} {r} e c =
      let same : a ≡ r = cc in subst (λ (q : Received). IsConsistent t q.receiver) same c

  -- `pdp_udp_receiver_receive` keeps the receiver consistent with the transmission.
  pub receive-IsConsistent :
      (x : Receiver) (i : Input) {r : Received}
      → IsConsistent t x
      → GenuineInput t i
      → receive x i ≡ ok r
      → IsConsistent t r.receiver
  unfolding receive
  receive-IsConsistent x select_error c g e = same_outcome e c
  receive-IsConsistent x timed_out c g e = same_outcome e c
  receive-IsConsistent x recv_error c g e = same_outcome e c
  receive-IsConsistent x (arrived (runt n)) c g e =
      same_outcome e (store_datagram-IsConsistent t sound x (runt n) c)
  receive-IsConsistent x (arrived (framed h body)) c g e =
      let stored = store_datagram-IsConsistent t sound x (framed h body) c in
      elim (Bool-cases (is_udp_header (framed h body))) [
        | inl valid ↦
            dispatch-IsConsistent _ h (take udp_bufsize body) stored (IsGenuine-take g)
              (store_datagram-Holds x h body c.room) (rw valid at e)
        | inr other ↦ same_outcome (rw other at e) stored
      ]

-- What a result that says `complete` shows, of the receiver `x` that it was made from.
abbrev Signalled : Receiver → Received → Type 0
Signalled x r =
    r.status ≡ complete
    → (x.packet_transferred ≡ false)
      × (r.receiver.packet_transferred ≡ true)
      × (r.receiver.receive_finished ≡ true)

signal_arrival-Signalled :
    (x : Receiver) (out : List Datagram) → Signalled x (signal_arrival (x, out))
unfolding signal_arrival
signal_arrival-Signalled x out s = ground arith

packet_transferred-handle_done :
    (x : Receiver) (h : Header) → (handle_done x h).0.packet_transferred ≡ x.packet_transferred
unfolding handle_done
packet_transferred-handle_done x h = elim (Bool-cases (x.connection_id == h.connection_id)) [
  | inl same ↦ rw same
  | inr other ↦ rw other
]

control-Signalled : (x : Receiver) (h : Header) → Signalled x (control x h)
unfolding control
control-Signalled x h = elim (Bool-cases (h.sequence_number == udp_new)) [
  | inl new ↦ rw new (λ s. cc)
  | inr other ↦ elim (Bool-cases (h.sequence_number == udp_done)) [
    | inl done ↦
        rw (other, done)
          (λ s.
            let (before, after, finished) = signal_arrival-Signalled (handle_done x h).0 _ s in
            (sym (packet_transferred-handle_done x h) ∙ before, after, finished))
    | inr unknown ↦ rw (other, unknown) (λ s. cc)
  ]
]

dispatch-Signalled :
    (x : Receiver) (h : Header) {r : Received} → dispatch x h ≡ ok r → Signalled x r
dispatch-Signalled x h {r} e s = elim (Bool-cases (leb (2 ^ 31) h.sequence_number)) [
  | inl negative ↦
      let same : control x h ≡ r = cc (dispatch-control x h negative) in
      subst (Signalled x) same (control-Signalled x h) s
  | inr chunk ↦
      let (x', stored, same) = dispatch_data x h chunk e in
      absurd (cc (ap (λ (q : Received). q.status) same))
]

-- A signal of completeness is given once, by a receiver whose reception is finished.
pub receive-Signalled :
    (x : Receiver) (i : Input) {r : Received} → receive x i ≡ ok r → Signalled x r
unfolding receive store_datagram
receive-Signalled x select_error e s = ground arith
receive-Signalled x timed_out e s = ground arith
receive-Signalled x recv_error e s = ground arith
receive-Signalled x (arrived (runt n)) e s = ground arith
receive-Signalled x (arrived (framed h body)) {r} e s =
    elim (Bool-cases (is_udp_header (framed h body))) [
      | inl valid ↦ dispatch-Signalled (store_datagram x (framed h body)) h (rw valid at e) s
      | inr other ↦ absurd (
          cc (
            let quiet : ok (answer (store_datagram x (framed h body), [])) ≡ ok r = rw other at e in
            quiet))
    ]

-- A receiver with what it was last told, after any inputs that the transmission `t` allows.
pub data Session (t : Transmission) : Receiver → Status → Type 0 where
  opened : Session t receiver_new nothing
  received :
      {x : Receiver} {s : Status}
      → Session t x s
      → (i : Input) (r : Received) → GenuineInput t i
      → receive x i ≡ ok r
      → Session t r.receiver r.status
  reset : {x : Receiver} {s : Status} → Session t x s → Session t (receiver_reset x) nothing

Session-IsConsistent :
    (t : Transmission) → IsSound t → {x : Receiver} {s : Status} → Session t x s → IsConsistent t x
unfolding receiver_reset
Session-IsConsistent t sound opened = record {
  room = length-replicate {A = ℕ} udp_bufsize 0;
  current = λ mine. absurd (sound.id_valid (sym mine));
}
Session-IsConsistent t sound (received {x} session i r g e) =
    receive-IsConsistent t sound x i (Session-IsConsistent t sound session) g e
Session-IsConsistent t sound (reset session) = record {
  room = (Session-IsConsistent t sound session).room;
  current = λ mine. absurd (sound.id_valid (sym mine));
}

-- Whatever the network drops, repeats, delays, reorders or mixes in: when the receiver signals a
-- complete packet of the transmission, it holds exactly the bytes that were sent.
pub Session-bytes :
    (t : Transmission) {x : Receiver} {s : Status}
    → IsSound t
    → Session t x s
    → s ≡ complete
    → x.connection_id ≡ t.id
    → x.bytes ≡ t.bytes
Session-bytes t sound opened e mine = cc
Session-bytes t sound (received {x} session i r g sent) e mine =
    let c = receive-IsConsistent t sound x i (Session-IsConsistent t sound session) g sent in
    all_copied t sound r.receiver (c.current mine) (receive-Signalled x i sent e).2
Session-bytes t sound (reset session) e mine = cc
