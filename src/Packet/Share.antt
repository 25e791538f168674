-- ===== src/Packet/Share.antt =====
-- Shared packets: taking a reference, giving it back, and copies to write to.
use native.Mathlib.Decide.{ℕ_discrete}
use native.Mathlib.Nat.{mod-eq_of_lt}
use pdp.Base.{
  ℕ, ◌+◌, ◌-◌, ◌%◌, ◌^◌, ◌<◌, ◌≡◌, ◌≢◌, refl, ap, ◌∙◌, sym, arith, false, ◌⊎◌, inl, inr, Option,
  none, some, length, lt→ltb, le→ltb, ne→==, Outcome, ok, fault,
}
use pdp.Packet.{Header, Pool, Env, header_size, header, put, writable}
use pdp.Packet.Factory.{new, save, map_slot}
use pdp.Packet.Handle.{copy_ro, copy_header, clone_raw, put_to_sleep, mark_unused}
use pdp.Packet.Slots.{header_inside, header-put_self, header-put_ne, header-slots, map_slot-put}
use pdp.Packet.Live.{new-Hands, ok_some_injective}
use pdp.Packet.Revive.{IsTracked, put-IsTracked, save-Saved}

pub copy_ro-put :
    (pool : Pool) (p : ℕ) (h : Header)
    → header pool p ≡ some h
    → 0 < h.users
    → copy_ro pool p ≡ ok (put pool p (some (record h { users = (h.users + 1) % 2 ^ 32 })), some p)
unfolding copy_ro
copy_ro-put pool p h there live = rw (there, copy_ro) (rw (ne→== h.users 0 (omega arith)) refl)

mark_unused-shared :
    (env : Env) (pool : Pool) (p : ℕ) (h : Header)
    → header pool p ≡ some h
    → 1 < h.users
    → mark_unused env pool p ≡ ok (put pool p (some (record h { users = h.users - 1 })))
unfolding mark_unused
mark_unused-shared env pool p h there shared =
    rw (there, mark_unused) (rw (ne→== h.users 0 (omega arith)) (rw (lt→ltb 1 h.users shared) refl))

described_case :
    (o : Option ℕ) {d : ℕ} (pool : Pool) (saved : Outcome Pool)
    → o ≡ some d
    → elim o as (λ x. Outcome Pool) [ none ↦ ok pool | some d' ↦ saved ] ≡ saved
described_case none pool saved e = cc
described_case (some d) pool saved e = refl

destructed_case :
    (o : Option ℕ) (pool : Pool) (saved : Outcome Pool)
    → o ≡ none
    → elim o as (λ x. Outcome Pool) [ none ↦ ok pool | some d' ↦ saved ] ≡ ok pool
destructed_case none pool saved e = refl
destructed_case (some d) pool saved e = cc

described_or_not : (o : Option ℕ) → (o ≡ none) ⊎ ((d : ℕ) × (o ≡ some d))
described_or_not none = inl refl
described_or_not (some d) = inr (d, refl)

none_or_some : {o : Option ℕ} {d : ℕ} → o ≡ none → o ≡ some d → ⊥
none_or_some e e' = cc

-- The last user gone, with a packet that its `sleep` method left without description.
mark_unused-destructed :
    (env : Env) (pool : Pool) (p : ℕ) (h : Header)
    → header pool p ≡ some h
    → h.users ≡ 1
    → (put_to_sleep env h).desc ≡ none
    → mark_unused env pool p ≡ ok (put pool p (some (record (put_to_sleep env h) { users = 0 })))
unfolding mark_unused
mark_unused-destructed env pool p h there one bare =
    rw (there, mark_unused)
      (rw (ne→== h.users 0 (omega arith)) (
        rw (le→ltb 1 h.users (omega arith)) (
          destructed_case (put_to_sleep env h).desc
            (put pool p (some (record (put_to_sleep env h) { users = 0 })))
            (save (put pool p (some (record (put_to_sleep env h) { users = 0 }))) p) bare)))

mark_unused-last :
    (env : Env) (pool : Pool) (p d : ℕ) (h : Header)
    → header pool p ≡ some h
    → h.users ≡ 1
    → (put_to_sleep env h).desc ≡ some d
    → mark_unused env pool p
      ≡ save (put pool p (some (record (put_to_sleep env h) { users = 0 }))) p
unfolding mark_unused
mark_unused-last env pool p d h there one described =
    rw (there, mark_unused)
      (rw (ne→== h.users 0 (omega arith)) (
        rw (le→ltb 1 h.users (omega arith)) (
          described_case (put_to_sleep env h).desc
            (put pool p (some (record (put_to_sleep env h) { users = 0 })))
            (save (put pool p (some (record (put_to_sleep env h) { users = 0 }))) p) described)))

-- A reference that was taken and given back.
abbrev pub TakenAndGiven : Env → Pool → ℕ → Type 0
TakenAndGiven env pool p =
    (taken given : Pool) × (copy_ro pool p ≡ ok (taken, some p))
    × (mark_unused env taken p ≡ ok given)
    × ((q : ℕ) → header given q ≡ header pool q)

-- `pdp_packet_copy_ro` of a packet in use, then `pdp_packet_mark_unused`, leaves every packet as it
-- was, short of 2 ^ 32 - 1 users.
pub mark_unused-copy_ro :
    (env : Env) (pool : Pool) (p : ℕ) (h : Header)
    → header pool p ≡ some h
    → 0 < h.users
    → h.users + 1 < 2 ^ 32
    → TakenAndGiven env pool p
mark_unused-copy_ro env pool p h there live room =
    let more : Header = record h { users = (h.users + 1) % 2 ^ 32 } in
    let count : (h.users + 1) % 2 ^ 32 ≡ h.users + 1 = mod-eq_of_lt room in
    let taken = put pool p (some more) in
    let inside = header_inside pool p there in
    let here : header taken p ≡ some more = header-put_self pool p (some more) inside in
    let back : Header = record more { users = (h.users + 1) % 2 ^ 32 - 1 } in
    let less : (h.users + 1) % 2 ^ 32 - 1 ≡ h.users = omega (arith, count) in
    let restored : back ≡ h = ap (λ n. record h { users = n }) less in
    (
      taken,
      put taken p (some back),
      copy_ro-put pool p h there live,
      mark_unused-shared env taken p more here (omega (arith, count)),
      λ q. elim (ℕ_discrete p q) [
        | yes same ↦
            ap (header (put taken p (some back))) (sym same)
            ∙ header-put_self taken p (some back) (header_inside taken p here)
            ∙ ap some restored
            ∙ sym there
            ∙ ap (header pool) same
        | no other ↦
            header-put_ne taken p q (some back) other ∙ header-put_ne pool p q (some more) other
      ],
    )

-- What giving back a reference leaves: one user less, and a pool whose fifos are sound if the packet is
-- described.
pub record Released (pool : Pool) (p n : ℕ) (o : Outcome Pool) : Type 0 where
  pub pool' : Pool
  pub done : o ≡ ok pool'
  pub packet : Header
  pub tracked : (d : ℕ) → packet.desc ≡ some d → IsTracked pool'
  pub there : header pool' p ≡ some packet
  pub count : packet.users ≡ n - 1
  pub others : (q : ℕ) → q ≢ p → header pool' q ≡ header pool q

-- `pdp_packet_mark_unused` of a described packet in use takes one user away and nothing from the other
-- packets. If the packet is still described, which a `sleep` method that destructs it ends, the fifos
-- hold only described packets, as they did before.
pub mark_unused-Released :
    (env : Env)
    → (pool : Pool) (p d : ℕ) (h : Header) → IsTracked pool
    → header pool p ≡ some h
    → h.desc ≡ some d
    → 0 < h.users
    → Released pool p h.users (mark_unused env pool p)
mark_unused-Released env pool p d h tracked there e live = elim (ℕ_discrete h.users 1) [
  | no many ↦
      let fewer : Header = record h { users = h.users - 1 } in
      record {
        pool' = put pool p (some fewer);
        done = mark_unused-shared env pool p h there (omega arith);
        tracked = λ d' e'. put-IsTracked pool p fewer d inside e tracked;
        packet = fewer;
        there = header-put_self pool p (some fewer) inside;
        count = refl;
        others = λ q ne. header-put_ne pool p q (some fewer) (λ s. ne (sym s));
      }
  | yes one ↦
      let asleep : Header = record (put_to_sleep env h) { users = 0 } in
      let laid = put pool p (some asleep) in
      let here : header laid p ≡ some asleep = header-put_self pool p (some asleep) inside in
      elim (described_or_not asleep.desc) [
        | inl bare ↦ record {
          pool' = laid;
          done = mark_unused-destructed env pool p h there one bare;
          packet = asleep;
          tracked = λ d' e'. absurd (none_or_some bare e');
          there = here;
          count = omega arith;
          others = λ q ne. header-put_ne pool p q (some asleep) (λ s. ne (sym s));
        }
        | inr (d', described) ↦
            let saved =
              save-Saved laid p d' asleep (put-IsTracked pool p asleep d' inside described tracked)
                here described refl in
            record {
              pool' = saved.pool';
              done = mark_unused-last env pool p d' h there one described ∙ saved.done;
              packet = asleep;
              tracked = λ d'' e''. saved.tracked;
              there = header-slots saved.pool' laid p saved.slots ∙ here;
              count = omega arith;
              others = λ q ne.
                  header-slots saved.pool' laid q saved.slots
                  ∙ header-put_ne pool p q (some asleep) (λ s. ne (sym s));
            }
      ]
]
  where
    inside : p < length pool.slots
    inside = header_inside pool p there

-- A clone that counts the users of its source.
abbrev pub SharesCount : ℕ → Pool → ℕ → Type 0
SharesCount users pool q =
    (clone : Header) × (header pool q ≡ some clone)
    × (clone.users ≡ users)
    × (writable pool q ≡ false)

-- A clone that `pdp_packet_clone_rw` makes by hand, for want of a constructor, has the user count of
-- its source: cloned from a shared packet it counts as many users, and is not writable, though
-- nobody shares it.
pub clone_raw-writable :
    (env : Env) (pool : Pool) (h : Header) {pool' : Pool} {q : ℕ}
    → 1 < h.users
    → clone_raw env pool h ≡ ok (pool', some q)
    → SharesCount h.users pool' q
unfolding clone_raw copy_header writable
clone_raw-writable env pool h {pool'} {q} shared e =
    split (new env pool h.type ((h.size + 2 ^ 32 - header_size) % 2 ^ 32)) refl
  where
    split :
        (o : Outcome (Pool × Option ℕ))
        → new env pool h.type ((h.size + 2 ^ 32 - header_size) % 2 ^ 32) ≡ o
        → SharesCount h.users pool' q
    split fault e' = absurd (ground arith)
    split (ok (w, none)) e' = absurd (ground arith)
    split (ok (w, some r)) e' =
        let k = new-Hands env pool _ _ e' in
        let clone : Header = record h { body = k.packet.body } in
        let (at_r, same) =
          ok_some_injective (map_slot (copy_header h) w r) pool' r q (rw (e', clone_raw) at e) in
        let here : header pool' q ≡ some clone =
          ap (header pool') (sym same)
          ∙ ap (λ v. header v r) (sym at_r ∙ map_slot-put (copy_header h) w r k.there)
          ∙ header-put_self w r (some clone) (header_inside w r k.there) in
        (clone, here, refl, rw (here, writable) (ne→== h.users 1 (omega arith)))
