-- ===== src/Packet/Revive.antt =====
-- `pdp_packet_reuse` ends, does not touch a packet that is gone, and gives a packet that matches or
-- leaves the fifo empty.
use mathlib.Core.Path.{subst}
use native.Mathlib.Decide.{ℕ_discrete}
use pdp.Base.{
  ℕ, zero, suc, ◌≤◌, ◌<◌, ◌≡◌, ◌≢◌, refl, ap, ◌∙◌, sym, arith, true, Option, none, some, List, [],
  ◌∷◌, get_or, set, ◌==◌, inl, inr, Bool-cases, length, eq→==, ne→==, ==→eq, Outcome, ok,
}
use pdp.Packet.{Header, Pool, Env, header, put, set_fifo}
use pdp.Packet.Factory.{member, save, reuse_loop}
use pdp.Packet.Slots.{header_inside, header-put_self, header-put_ne, header-set_fifo}

-- A packet that is there, with a description.
abbrev pub IsDescribed : Pool → ℕ → Type 0
IsDescribed pool p = (h : Header) × (header pool p ≡ some h) × (d : ℕ) × (h.desc ≡ some d)

abbrev pub AllDescribed : Pool → List ℕ → Type 0
AllDescribed pool [] = Unit {0}
AllDescribed pool (p ∷ ps) = IsDescribed pool p × AllDescribed pool ps

-- All packets of all fifos are.
abbrev pub IsTracked : Pool → Type 0
IsTracked pool = (s : ℕ) → AllDescribed pool (pool.fifos s)

AllDescribed-map :
    (pool pool' : Pool) (ps : List ℕ)
    → ((p : ℕ) → IsDescribed pool p → IsDescribed pool' p)
    → AllDescribed pool ps
    → AllDescribed pool' ps
AllDescribed-map pool pool' [] f a = tt
AllDescribed-map pool pool' (p ∷ ps) f a = (f p a.0, AllDescribed-map pool pool' ps f a.1)

fifos-set_self : (pool : Pool) (s : ℕ) (ps : List ℕ) → (set_fifo pool s ps).fifos s ≡ ps
unfolding set_fifo
fifos-set_self pool s ps = rw (eq→== s s refl) refl

fifos-set_ne :
    (pool : Pool) (s t : ℕ) (ps : List ℕ) → t ≢ s → (set_fifo pool s ps).fifos t ≡ pool.fifos t
unfolding set_fifo
fifos-set_ne pool s t ps ne = rw (ne→== t s ne) refl

slots-set_fifo : (pool : Pool) (s : ℕ) (ps : List ℕ) → (set_fifo pool s ps).slots ≡ pool.slots
unfolding set_fifo
slots-set_fifo pool s ps = refl

set_fifo-IsTracked :
    (pool : Pool) (s : ℕ) (ps : List ℕ)
    → IsTracked pool
    → AllDescribed pool ps
    → IsTracked (set_fifo pool s ps)
set_fifo-IsTracked pool s ps tracked all t = elim (ℕ_discrete t s) [
  | yes same ↦
      subst (AllDescribed (set_fifo pool s ps))
        (sym (ap (set_fifo pool s ps).fifos same ∙ fifos-set_self pool s ps)) (moved ps all)
  | no other ↦
      subst (AllDescribed (set_fifo pool s ps)) (sym (fifos-set_ne pool s t ps other))
        (moved (pool.fifos t) (tracked t))
]
  where
    moved : (qs : List ℕ) → AllDescribed pool qs → AllDescribed (set_fifo pool s ps) qs
    moved qs a =
        AllDescribed-map pool (set_fifo pool s ps) qs
          (λ p (h, there, d, e). (h, header-set_fifo pool s p ps ∙ there, d, e)) a

-- A packet that changes and keeps a description stays good for the fifos.
pub put-IsTracked :
    (pool : Pool) (p : ℕ) (h : Header) (d : ℕ)
    → p < length pool.slots
    → h.desc ≡ some d
    → IsTracked pool
    → IsTracked (put pool p (some h))
unfolding put
put-IsTracked pool p h d inside e tracked s =
    AllDescribed-map pool (put pool p (some h)) (pool.fifos s)
      (λ q k. elim (ℕ_discrete p q) [
        | yes same ↦ (
          h,
          ap (header (put pool p (some h))) (sym same) ∙ header-put_self pool p (some h) inside,
          d,
          e,
        )
        | no other ↦ (k.0, header-put_ne pool p q (some h) other ∙ k.1, k.2, k.3)
      ])
      (tracked s)

-- What `_pdp_packet_save_nolock` does to an unused packet of the description `d`.
pub record Saved (pool : Pool) (d : ℕ) (o : Outcome Pool) : Type 0 where
  pub pool' : Pool
  pub done : o ≡ ok pool'
  pub slots : pool'.slots ≡ pool.slots
  pub others : (t : ℕ) → t ≢ d → pool'.fifos t ≡ pool.fifos t
  pub tracked : IsTracked pool'

pub save-Saved :
    (pool : Pool) (p d : ℕ) (h : Header)
    → IsTracked pool
    → header pool p ≡ some h
    → h.desc ≡ some d
    → h.users ≡ 0
    → Saved pool d (save pool p)
unfolding save
save-Saved pool p d h tracked there e idle = elim (Bool-cases (member p (pool.fifos d))) [
  | inl known ↦ record {
    pool' = pool;
    done = rw (there, save) (rw e (rw (eq→== h.users 0 idle) (rw known refl)));
    slots = refl;
    others = λ t ne. refl;
    tracked = tracked;
  }
  | inr fresh ↦ record {
    pool' = set_fifo pool d (p ∷ pool.fifos d);
    done = rw (there, save) (rw e (rw (eq→== h.users 0 idle) (rw fresh refl)));
    slots = slots-set_fifo pool d (p ∷ pool.fifos d);
    others = λ t ne. fifos-set_ne pool d t (p ∷ pool.fifos d) ne;
    tracked = set_fifo-IsTracked pool d (p ∷ pool.fifos d) tracked ((h, there, d, e), tracked d);
  }
]

-- How `pdp_packet_reuse` may end for the description `type`.
pub data Revival (env : Env) (pool : Pool) (type : ℕ) : Outcome (Pool × Option ℕ) → Type 0 where
  exhausted :
      {pool' : Pool}
      → pool'.fifos type ≡ []
      → pool'.slots ≡ pool.slots
      → IsTracked pool'
      → Revival env pool type (ok (pool', none))
  revived :
      {pool' : Pool} {p : ℕ} (h : Header) (d : ℕ)
      → header pool p ≡ some h
      → h.users ≡ 0
      → h.desc ≡ some d
      → env.match_desc d type ≡ true
      → pool'.slots ≡ (put pool p (some (record h { users = 1 }))).slots
      → IsTracked pool'
      → Revival env pool type (ok (pool', some p))

Revival-slots :
    {env : Env} {pool pool' : Pool} {type : ℕ} {o : Outcome (Pool × Option ℕ)}
    → pool'.slots ≡ pool.slots
    → Revival env pool' type o
    → Revival env pool type o
unfolding header put
Revival-slots same (exhausted none_left slots tracked) = exhausted none_left (slots ∙ same) tracked
Revival-slots same (revived {p} h d there idle e hit slots tracked) =
    revived h d (ap (λ ss. get_or ss p none) (sym same) ∙ there) idle e hit
      (slots ∙ ap (λ ss. set ss p (some (record h { users = 1 }))) same) tracked

slots-put_popped :
    (pool : Pool) (type p : ℕ) (ps : List ℕ) (h : Header)
    → (put (set_fifo pool type ps) p (some h)).slots ≡ (put pool p (some h)).slots
unfolding put set_fifo
slots-put_popped pool type p ps h = refl

module _ (env : Env) (reflexive : (d : ℕ) → env.match_desc d d ≡ true) where
  -- One turn, where the later ones end well.
  turn-Revival :
      (turns : ℕ) (pool : Pool) (type : ℕ) (ps : List ℕ)
      → IsTracked pool
      → length ps ≤ suc turns
      → ((w : Pool)
          → IsTracked w
          → length (w.fifos type) ≤ turns
          → Revival env w type (reuse_loop turns env w type))
      → pool.fifos type ≡ ps
      → Revival env pool type (reuse_loop (suc turns) env pool type)
  unfolding reuse_loop
  turn-Revival turns pool type [] tracked enough later e =
      rw (e, reuse_loop) (exhausted e refl tracked)
  turn-Revival turns pool type (p ∷ ps) tracked enough later e =
      let popped = set_fifo pool type ps in
      let all : AllDescribed pool (p ∷ ps) = subst (AllDescribed pool) e (tracked type) in
      let (h, there, d, described) = all.0 in
      let tracked' : IsTracked popped = set_fifo-IsTracked pool type ps tracked all.1 in
      let here : header popped p ≡ some h = header-set_fifo pool type p ps ∙ there in
      let short : length ps ≤ turns = omega arith in
      elim (Bool-cases (h.users == 0)) [
        | inr used ↦
            rw (e, reuse_loop)
              (rw here (
                rw used (
                  Revival-slots (slots-set_fifo pool type ps) (
                    later popped tracked'
                      (omega (arith, ap length (fifos-set_self pool type ps)))))))
        | inl idle ↦ elim (Bool-cases (env.match_desc d type)) [
          | inl hit ↦
              rw (e, reuse_loop)
                (rw here (
                  rw idle (
                    rw described (
                      rw hit (
                        revived h d there (==→eq _ _ idle) described hit
                          (slots-put_popped pool type p ps (record h { users = 1 }))
                          (put-IsTracked popped p (record h { users = 1 }) d
                            (header_inside popped p here) described tracked'))))))
          | inr miss ↦
              let saved = save-Saved popped p d h tracked' here described (==→eq _ _ idle) in
              let apart : type ≢ d = λ same. cc (ap (env.match_desc d) same ∙ reflexive d, miss) in
              let kept : saved.pool'.fifos type ≡ ps =
                saved.others type apart ∙ fifos-set_self pool type ps in
              rw (e, reuse_loop)
                (rw here (
                  rw idle (
                    rw described (
                      rw miss (
                        rw saved.done (
                          Revival-slots (saved.slots ∙ slots-set_fifo pool type ps)
                            (later saved.pool' saved.tracked (omega (arith, ap length kept)))))))))
        ]
      ]

  nil_of : (ps : List ℕ) → length ps ≤ 0 → ps ≡ []
  nil_of [] e = refl
  nil_of (p ∷ ps) e = absurd (omega arith)

  -- In a pool whose fifos hold only described packets, and where each description matches itself, the
  -- loop of `pdp_packet_reuse` ends within as many turns as the fifo has packets and dereferences
  -- no packet that is gone. It revives an unused packet whose description matches, or leaves the
  -- fifo empty and every packet as it was; the fifos still hold only described packets.
  pub reuse_loop-Revival :
      (turns : ℕ) (pool : Pool) (type : ℕ)
      → IsTracked pool
      → length (pool.fifos type) ≤ turns
      → Revival env pool type (reuse_loop turns env pool type)
  unfolding reuse_loop
  reuse_loop-Revival zero pool type tracked enough =
      exhausted (nil_of (pool.fifos type) enough) refl tracked
  reuse_loop-Revival (suc turns) pool type tracked enough =
      turn-Revival turns pool type (pool.fifos type) tracked enough
        (λ w t few. reuse_loop-Revival turns w type t few) refl
