-- ===== src/Comm/Passing.antt =====
-- A packet that is passed on belongs to the receivers that took it.
use native.Mathlib.Nat.{mod-eq_of_lt}
use pdp.Base.{
  ℕ, suc, ◌+◌, ◌%◌, ◌^◌, ◌<◌, ◌≡◌, ◌≢◌, refl, ap, ◌∙◌, sym, arith, true, false, Option, none, some,
  List, [], ◌∷◌, Outcome, ok,
}
use pdp.Packet.{Header, Pool, Env, header, put}
use pdp.Packet.Handle.{copy_ro, mark_unused}
use pdp.Packet.Slots.{header_inside, header-put_self, header-put_ne}
use pdp.Packet.Revive.{IsTracked, put-IsTracked}
use pdp.Packet.Share.{mark_unused-Released, copy_ro-put}
use pdp.Comm.{
  Patch, Reaction, copy_ro_or_drop, notify_if, ahead, register_all, outlet_pdp_register, passed,
  pass_if_valid,
}

-- The receivers with no packet, and all of them after they took `p`.
abbrev pub free_inlets : List (Option ℕ) → ℕ
free_inlets [] = 0
free_inlets (none ∷ inlets) = suc (free_inlets inlets)
free_inlets (some q ∷ inlets) = free_inlets inlets

abbrev pub filled : ℕ → List (Option ℕ) → List (Option ℕ)
filled p [] = []
filled p (none ∷ inlets) = some p ∷ filled p inlets
filled p (some q ∷ inlets) = some q ∷ filled p inlets

-- What the phase of registration leaves.
record Registered (pool : Pool) (p d users : ℕ) (inlets : List (Option ℕ)) (result : Outcome Patch)
    : Type 0 where
  after : Patch
  done : result ≡ ok after
  packet : Header
  there : header after.pool p ≡ some packet
  described : packet.desc ≡ some d
  count : packet.users ≡ users + free_inlets inlets
  taken : after.inlets ≡ filled p inlets
  tracked : IsTracked after.pool
  others : (q : ℕ) → q ≢ p → header after.pool q ≡ header pool q

copy_ro_or_drop-free :
    (pool pool' : Pool) (p : ℕ)
    → copy_ro pool p ≡ ok (pool', some p)
    → copy_ro_or_drop pool none p ≡ ok (pool', some p, false)
unfolding copy_ro_or_drop
copy_ro_or_drop-free pool pool' p e = rw (e, copy_ro_or_drop) refl

register_all-free :
    (pool pool' : Pool) (p dropped : ℕ) (inlets : List (Option ℕ))
    → copy_ro pool p ≡ ok (pool', some p)
    → register_all p (none ∷ inlets) pool dropped
      ≡ ahead (some p) (register_all p inlets pool' dropped)
unfolding register_all
register_all-free pool pool' p dropped inlets e =
    rw (copy_ro_or_drop-free pool pool' p e, register_all) refl

register_all-Registered :
    (p d : ℕ) (inlets : List (Option ℕ)) (pool : Pool) (dropped : ℕ) (h : Header)
    → IsTracked pool
    → header pool p ≡ some h
    → h.desc ≡ some d
    → 0 < h.users
    → h.users + free_inlets inlets < 2 ^ 32
    → Registered pool p d h.users inlets (register_all p inlets pool dropped)
unfolding register_all copy_ro_or_drop
register_all-Registered p d [] pool dropped h tracked there e live room = record {
  after = record { pool = pool; inlets = []; dropped_packets = dropped };
  done = refl;
  packet = h;
  there = there;
  described = e;
  count = omega arith;
  taken = refl;
  tracked = tracked;
  others = λ q ne. refl;
}
register_all-Registered p d (some q ∷ inlets) pool dropped h tracked there e live room =
    let rest =
      register_all-Registered p d inlets pool (notify_if true dropped) h tracked there e live
        room in
    record {
      after = record rest.after { inlets = some q ∷ rest.after.inlets };
      done = ap (ahead (some q)) rest.done;
      packet = rest.packet;
      there = rest.there;
      described = rest.described;
      count = rest.count;
      taken = ap (λ t. some q ∷ t) rest.taken;
      tracked = rest.tracked;
      others = rest.others;
    }
register_all-Registered p d (none ∷ inlets) pool dropped h tracked there e live room =
    let more : Header = record h { users = (h.users + 1) % 2 ^ 32 } in
    let count : (h.users + 1) % 2 ^ 32 ≡ h.users + 1 = mod-eq_of_lt (omega arith) in
    let pool' = put pool p (some more) in
    let inside = header_inside pool p there in
    let rest =
      register_all-Registered p d inlets pool' dropped more
        (put-IsTracked pool p more d inside e tracked) (header-put_self pool p (some more) inside) e
        (omega (arith, count)) (omega (arith, count)) in
    record {
      after = record rest.after { inlets = some p ∷ rest.after.inlets };
      done =
          register_all-free pool pool' p dropped inlets (copy_ro-put pool p h there live)
          ∙ ap (ahead (some p)) rest.done;
      packet = rest.packet;
      there = rest.there;
      described = rest.described;
      count = omega (arith, rest.count, count);
      taken = ap (λ t. some p ∷ t) rest.taken;
      tracked = rest.tracked;
      others = λ q ne. rest.others q ne ∙ header-put_ne pool p q (some more) (λ s. ne (sym s));
    }

-- The receivers of today leave the deprecated phase `register_rw` unanswered.
abbrev pub no_copies : Reaction
no_copies s p = ok s

-- What `process` is given: the receivers with no packet have it, as its only users, the sender's reference is
-- gone, and no other packet is touched.
pub record Passed (before : Patch) (p : ℕ) (process : Patch → Outcome Patch)
    (result : Outcome (Patch × Option ℕ)) : Type 0 where
  pub after : Patch
  pub returns : result ≡ passed (process after)
  pub packet : Header
  pub there : header after.pool p ≡ some packet
  pub users : packet.users ≡ free_inlets before.inlets
  pub taken : after.inlets ≡ filled p before.inlets
  pub others : (q : ℕ) → q ≢ p → header after.pool q ≡ header before.pool q
  pub tracked : (d : ℕ) → packet.desc ≡ some d → IsTracked after.pool

outlet_pdp_register_lem :
    (s s' : Patch) (p : ℕ)
    → register_all p s.inlets s.pool s.dropped_packets ≡ ok s'
    → outlet_pdp_register no_copies s p ≡ ok s'
unfolding outlet_pdp_register
outlet_pdp_register_lem s s' p e = rw (e, outlet_pdp_register) refl

pass_if_valid_lem :
    (env : Env) (process : Patch → Outcome Patch) (s s' : Patch) (p : ℕ) (h : Header) (pool' : Pool)
    → header s.pool p ≡ some h
    → outlet_pdp_register no_copies s p ≡ ok s'
    → mark_unused env s'.pool p ≡ ok pool'
    → pass_if_valid env no_copies process s (some p) ≡ passed (process (record s' { pool = pool' }))
unfolding pass_if_valid
pass_if_valid_lem env process s s' p h pool' there e e' =
    rw (there, pass_if_valid) (rw e (rw e' refl))

-- `pdp_packet_pass_if_valid` of a described packet that only the sender uses, to receivers that leave the
-- phase `register_rw` unanswered: the state that the phase `process` starts from is one where every
-- receiver with an empty variable has taken the packet and the others keep what they hold, where the
-- packet has as many users as receivers took it, none at all when all were busy, and where no other
-- packet has changed. If the packet is still described there, the pool's fifos hold only described
-- packets, as before. The call returns what `process` makes of that state, with -1 for the sender's
-- variable. There are fewer than 2^32 - 1 receivers.
pub pass_if_valid-Passed :
    (env : Env) (process : Patch → Outcome Patch) (s : Patch) (p d : ℕ) (h : Header)
    → IsTracked s.pool
    → header s.pool p ≡ some h
    → h.desc ≡ some d
    → h.users ≡ 1
    → 1 + free_inlets s.inlets < 2 ^ 32
    → Passed s p process (pass_if_valid env no_copies process s (some p))
pass_if_valid-Passed env process s p d h tracked there e one room =
    let r =
      register_all-Registered p d s.inlets s.pool s.dropped_packets h tracked there e (omega arith)
        (omega arith) in
    let given =
      mark_unused-Released env r.after.pool p d r.packet r.tracked r.there r.described
        (omega (arith, r.count)) in
    record {
      after = record r.after { pool = given.pool' };
      returns =
          pass_if_valid_lem env process s r.after p h given.pool' there
            (outlet_pdp_register_lem s r.after p r.done) given.done;
      packet = given.packet;
      there = given.there;
      users = omega (arith, given.count, r.count);
      taken = r.taken;
      others = λ q ne. given.others q ne ∙ r.others q ne;
      tracked = given.tracked;
    }
