-- ===== src/Packet/Live.antt =====
-- A packet in use stays what it is: what makes or revives packets takes only slots that nobody
-- uses, and leaves all others alone.
use mathlib.Core.Path.{subst}
use pdp.Base.{
  ℕ, zero, suc, ◌+◌, ◌%◌, ◌^◌, ◌<◌, ◌≡◌, ◌≢◌, refl, ap, ◌∙◌, sym, arith, true, Option, none, some,
  List, inl, inr, Option-cases, length, ◌⊎◌, Outcome, ok,
}
use pdp.Packet.{Header, Pool, Env, header_size, header, put}
use pdp.Packet.Factory.{
  expand, alloc_packet, find_from, is_free, create_loop, create, is_reapable, reinit, map_slot, new,
}
use pdp.Packet.Slots.{
  header-put_self, header-put_ne, map_slot-put, find_from-header, get_or-append_none,
}

-- The packet `p` is handed out: nobody used it before, it now has one user and the others are as
-- they were.
pub record Hands (pool pool' : Pool) (p : ℕ) : Type 0 where
  pub idle : (h : Header) → header pool p ≡ some h → h.users ≡ 0
  pub others : (q : ℕ) → q ≢ p → header pool' q ≡ header pool q
  pub packet : Header
  pub there : header pool' p ≡ some packet
  pub single : packet.users ≡ 1

put-Hands :
    (pool : Pool) (p : ℕ) (h : Header)
    → p < length pool.slots
    → ((h' : Header) → header pool p ≡ some h' → h'.users ≡ 0)
    → h.users ≡ 1
    → Hands pool (put pool p (some h)) p
put-Hands pool p h inside idle single = record {
  idle = idle;
  others = λ q ne. header-put_ne pool p q (some h) (λ e. ne (sym e));
  packet = h;
  there = header-put_self pool p (some h) inside;
  single = single;
}

alloc_packet-users :
    (env : Env) (t n : ℕ) {h : Header} → alloc_packet env t n ≡ some h → h.users ≡ 1
unfolding alloc_packet
alloc_packet-users env t n {h} e = split (env.alloc ((n + header_size) % 2 ^ 32)) refl
  where
    split : (o : Option (List ℕ)) → env.alloc ((n + header_size) % 2 ^ 32) ≡ o → h.users ≡ 1
    split none e' = absurd (ground arith)
    split (some bytes) e' = ground arith

header-expand : (pool : Pool) (q : ℕ) → header (expand pool) q ≡ header pool q
unfolding header expand
header-expand pool q = get_or-append_none pool.slots (length pool.slots) q

is_free-none : (s : Option Header) → is_free s ≡ true → s ≡ none
is_free-none none e = refl
is_free-none (some h) e = cc

Hands-expand : {pool pool' : Pool} {p : ℕ} → Hands (expand pool) pool' p → Hands pool pool' p
Hands-expand {pool} {pool'} {p} k = record {
  idle = λ h e. k.idle h (header-expand pool p ∙ e);
  others = λ q ne. k.others q ne ∙ header-expand pool q;
  packet = k.packet;
  there = k.there;
  single = k.single;
}

-- One turn of the loop, at a free slot.
turn_free :
    (turns : ℕ) (env : Env) (pool : Pool) (t n : ℕ) {p q : ℕ} {pool' : Pool}
    → find_from is_free 0 pool.slots ≡ some p
    → create_loop (suc turns) env pool t n ≡ ok (pool', some q)
    → (h : Header) × (alloc_packet env t n ≡ some h) × (put pool p (some h) ≡ pool') × (p ≡ q)
unfolding create_loop
turn_free turns env pool t n {p} {q} {pool'} free e = split (alloc_packet env t n) refl
  where
    split :
        (o : Option Header)
        → alloc_packet env t n ≡ o
        → (h : Header) × (alloc_packet env t n ≡ some h) × (put pool p (some h) ≡ pool') × (p ≡ q)
    split none e' = absurd (ground arith)
    split (some h) e' = (h, e', ground arith, ground arith)

turn_full :
    (turns : ℕ) (env : Env) (pool : Pool) (t n : ℕ) {o : Outcome (Pool × Option ℕ)}
    → find_from is_free 0 pool.slots ≡ none
    → create_loop (suc turns) env pool t n ≡ o
    → create_loop turns env (expand pool) t n ≡ o
unfolding create_loop
turn_full turns env pool t n full e = rw (full, create_loop) at e

create_loop-Hands :
    (turns : ℕ) (env : Env) (pool : Pool) (t n : ℕ) {q : ℕ} {pool' : Pool}
    → create_loop turns env pool t n ≡ ok (pool', some q)
    → Hands pool pool' q
unfolding create_loop
create_loop-Hands zero env pool t n e = absurd (cc)
create_loop-Hands (suc turns) env pool t n {q} {pool'} e =
    elim (Option-cases (find_from is_free 0 pool.slots)) [
      | inl full ↦
          Hands-expand
            (create_loop-Hands turns env (expand pool) t n (turn_full turns env pool t n full e))
      | inr (p, free) ↦
          let (h, made, at_p, same) = turn_free turns env pool t n free e in
          let (inside, hit) = find_from-header is_free pool free in
          let empty : header pool p ≡ none = is_free-none (header pool p) hit in
          subst (λ i. Hands pool pool' i) same
            (subst (λ w. Hands pool w p) at_p
              (put-Hands pool p h inside (λ h' there. cc) (alloc_packet-users env t n made)))
    ]

-- `pdp_packet_create` takes an empty slot.
pub create-Hands :
    (env : Env) (pool : Pool) (t n : ℕ) {q : ℕ} {pool' : Pool}
    → create env pool t n ≡ ok (pool', some q)
    → Hands pool pool' q
unfolding create
create-Hands env pool t n e = create_loop-Hands 2 env pool t n e

is_reapable-users :
    (env : Env) (n : ℕ) (h : Header) → is_reapable env n (some h) ≡ true → h.users ≡ 0
unfolding is_reapable
is_reapable-users env n h e = ground arith

reapable_header :
    (env : Env) (n : ℕ) (s : Option Header)
    → is_reapable env n s ≡ true
    → (h : Header) × (s ≡ some h)
unfolding is_reapable
reapable_header env n none e = absurd (cc)
reapable_header env n (some h) e = (h, refl)

pub ok_some_injective :
    (a b : Pool) (p q : ℕ)
    → ◌≡◌ {A = Outcome (Pool × Option ℕ)} (ok (a, some p)) (ok (b, some q))
    → (a ≡ b) × (p ≡ q)
ok_some_injective a b p q e = (ground arith, ground arith)

new_cases :
    (env : Env) (pool : Pool) (t n : ℕ) {q : ℕ} {pool' : Pool}
    → new env pool t n ≡ ok (pool', some q)
    → (create env pool t n ≡ ok (pool', some q))
      ⊎ ((find_from (is_reapable env n) 0 pool.slots ≡ some q)
          × (map_slot (reinit t n) pool q ≡ pool'))
unfolding new
new_cases env pool t n {q} {pool'} e =
    elim (Option-cases (find_from (is_reapable env n) 0 pool.slots)) [
      | inl none_fits ↦ inl (rw (none_fits, new) at e)
      | inr (p, fits) ↦
          let (at_p, same) = ok_some_injective _ _ _ _ (rw (fits, new) at e) in
          inr (fits ∙ ap some same, ap (map_slot (reinit t n) pool) (sym same) ∙ at_p)
    ]

-- A packet that `pdp_packet_new` gives had no user before, has one now, and all other packets are
-- as they were.
pub new-Hands :
    (env : Env) (pool : Pool) (t n : ℕ) {q : ℕ} {pool' : Pool}
    → new env pool t n ≡ ok (pool', some q)
    → Hands pool pool' q
unfolding reinit
new-Hands env pool t n {q} {pool'} e = elim (new_cases env pool t n e) [
  | inl made ↦ create-Hands env pool t n made
  | inr (fits, taken) ↦
      let (inside, hit) = find_from-header (is_reapable env n) pool fits in
      let (h, there) = reapable_header env n (header pool q) hit in
      let idle : h.users ≡ 0 =
        is_reapable-users env n h (ap (is_reapable env n) (sym there) ∙ hit) in
      let at_q = sym (map_slot-put (reinit t n) pool q there) ∙ taken in
      subst (λ w. Hands pool w q) at_q
        (put-Hands pool q (reinit t n h) inside
          (λ h' there'. let same : h ≡ h' = cc in ap (λ (k : Header). k.users) (sym same) ∙ idle)
          refl)
]
