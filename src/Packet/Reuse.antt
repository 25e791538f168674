-- ===== src/Packet/Reuse.antt =====
-- What `pdp_packet_reuse` gives its caller, and that `pdp_packet_create` ends.
use mathlib.Core.Path.{subst}
use pdp.Base.{
  ℕ, suc, ◌<◌, ◌≡◌, ◌≢◌, refl, ap, ◌∙◌, sym, arith, true, Option, none, some, ◌++◌, inl, inr,
  Option-cases, length, replicate, length-append, length-replicate, Outcome, ok, fault,
}
use pdp.Packet.{Header, Pool, Env, header, put}
use pdp.Packet.Factory.{
  reuse_loop, wake, reuse, map_slot, find_from, is_free, create_loop, create, expand, alloc_packet,
}
use pdp.Packet.Slots.{
  header_inside, header-put_self, header-put_ne, header-slots, map_slot-put, find_from-finds,
  get_or-append_replicate,
}
use pdp.Packet.Live.{Hands, ok_some_injective}
use pdp.Packet.Revive.{IsTracked, Revival, revived, reuse_loop-Revival}

-- The `wakeup` methods leave the number of users alone.
abbrev pub WakesUsers : Env → Type 0
WakesUsers env = (h : Header) → (wake env h).users ≡ h.users

-- In a pool whose fifos hold only described packets, `pdp_packet_reuse` gives a packet that had no
-- user, has one now, and leaves all other packets as they were. The match of descriptions has to
-- be reflexive, and the `wakeup` methods have to leave the user count alone.
pub reuse-Hands :
    (env : Env)
    → ((d : ℕ) → env.match_desc d d ≡ true)
    → WakesUsers env
    → (pool : Pool) (type : ℕ) {pool' : Pool} {p : ℕ} → IsTracked pool
    → reuse env pool (some type) ≡ ok (pool', some p)
    → Hands pool pool' p
unfolding reuse
reuse-Hands env reflexive waking pool type {pool'} {p} tracked e =
    split (reuse_loop (length (pool.fifos type)) env pool type) refl
      (reuse_loop-Revival env reflexive (length (pool.fifos type)) pool type tracked (omega arith))
  where
    split :
        (o : Outcome (Pool × Option ℕ))
        → reuse_loop (length (pool.fifos type)) env pool type ≡ o
        → Revival env pool type o
        → Hands pool pool' p
    split (ok (w, none)) e' r = absurd (ground arith)
    split (ok (w, some q)) e' (revived h d there idle described hit slots tracked') =
        let one = record h { users = 1 } in
        let inside = header_inside pool q there in
        let here : header w q ≡ some one =
          header-slots w (put pool q (some one)) q slots
          ∙ header-put_self pool q (some one) inside in
        let (at_q, same) =
          ok_some_injective (map_slot (wake env) w q) pool' q p (rw (e', reuse) at e) in
        let final : put w q (some (wake env one)) ≡ pool' =
          sym (map_slot-put (wake env) w q here) ∙ at_q in
        subst (λ i. Hands pool pool' i) same
          (subst (λ v. Hands pool v q) final
            (record {
              idle =
                  λ h' there'. let eq : h ≡ h' = cc in ap (λ (k : Header). k.users) (sym eq) ∙ idle;
              others = λ r ne.
                  header-put_ne w q r (some (wake env one)) (λ s. ne (sym s))
                  ∙ header-slots w (put pool q (some one)) r slots
                  ∙ header-put_ne pool q r (some one) (λ s. ne (sym s));
              packet = wake env one;
              there = header-put_self w q (some (wake env one)) (header_inside w q here);
              single = waking one;
            }))
    split fault e' r = absurd (ground arith)

-- Where the slots are all taken, the first one that the pool grows by is found.
expand_finds :
    (pool : Pool) → 0 < length pool.slots → find_from is_free 0 (expand pool).slots ≢ none
unfolding expand
expand_finds pool some_slot =
    find_from-finds is_free 0 (pool.slots ++ replicate (length pool.slots) none) (length pool.slots)
      (omega (
        arith,
        length-append pool.slots (replicate (length pool.slots) none),
        length-replicate {A = Option Header} (length pool.slots) none,
      ))
      (ap is_free (get_or-append_replicate pool.slots (length pool.slots)))

-- A packet was created.
abbrev pub Creates : Outcome (Pool × Option ℕ) → Type 0
Creates o = (pool' : Pool) × (p : ℕ) × (o ≡ ok (pool', some p))

turn-Creates :
    (turns : ℕ) (env : Env) (pool : Pool) (t n : ℕ) {p : ℕ} {h : Header}
    → find_from is_free 0 pool.slots ≡ some p
    → alloc_packet env t n ≡ some h
    → Creates (create_loop (suc turns) env pool t n)
unfolding create_loop
turn-Creates turns env pool t n {p} {h} free made =
    (put pool p (some h), p, rw (free, create_loop) (rw made refl))

-- The endless loop of `_pdp_packet_create_nolock` ends: in a pool with a slot, and where the
-- allocator gives a block, a packet is created after the pool was doubled at most once.
pub create-Creates :
    (env : Env) (pool : Pool) (t n : ℕ) {h : Header}
    → 0 < length pool.slots
    → alloc_packet env t n ≡ some h
    → Creates (create env pool t n)
unfolding create create_loop
create-Creates env pool t n some_slot made = elim (Option-cases (find_from is_free 0 pool.slots)) [
  | inr (p, free) ↦ turn-Creates 1 env pool t n free made
  | inl full ↦ elim (Option-cases (find_from is_free 0 (expand pool).slots)) [
    | inl again ↦ absurd (expand_finds pool some_slot again)
    | inr (p, free) ↦ rw (full, create_loop) (turn-Creates 0 env (expand pool) t n free made)
  ]
]
