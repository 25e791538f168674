-- ===== src/Packet/Tests.antt =====
-- The pool at small sizes: runs, and the theorems at concrete inputs.
use pdp.Base.{ℕ, ◌≡◌, refl, arith, true, false, none, some, List, [], ◌∷◌, ◌==◌, ==-refl, ok}
use pdp.Packet.{Header, Pool, Env, header, put, set_fifo}
use pdp.Packet.Factory.{
  alloc_packet, find_from, is_reapable, has_cleanup, reinit, new, create, reuse_loop, wake, reuse,
}
use pdp.Packet.Handle.{copy_header, clone_raw, mark_unused}
use pdp.Packet.Live.{Hands, new-Hands}
use pdp.Packet.Revive.{IsTracked, AllDescribed, Revival, reuse_loop-Revival}
use pdp.Packet.Reuse.{Creates, reuse-Hands, create-Creates}
use pdp.Packet.Share.{Released, SharesCount, mark_unused-Released, clone_raw-writable}

abbrev plain : Env
plain = record {
  class_of = λ c. record {
    wakeup = none;
    copy = none;
    has_cleanup = false;
    sleep = none;
    type = none;
    create = none;
  };
  class_list = [];
  match_desc = λ a b. a == b;
  alloc = λ n. some (7 ∷ 7 ∷ []);
}

-- A packet of two bytes with the description 5.
abbrev picture : ℕ → Header
picture n = record {
  type = 1;
  desc = some 5;
  size = 258;
  flags = 0;
  users = n;
  theclass = none;
  info = [];
  body = 1 ∷ 2 ∷ [];
}

-- An idle packet, a shared one and an empty slot; the idle one waits in the fifo.
abbrev three_slots : Pool
three_slots = record {
  slots = some (picture 0) ∷ some (picture 2) ∷ none ∷ [];
  fifos = λ s. elim (s == 5) [ true ↦ 0 ∷ [] | false ↦ [] ];
}

three_slots-IsTracked : IsTracked three_slots
unfolding header
three_slots-IsTracked s =
    elim (s == 5)
      as (λ b. AllDescribed three_slots (elim b as (λ x. List ℕ) [ true ↦ 0 ∷ [] | false ↦ [] ])) [
        | true ↦ ((picture 0, refl, 5, refl), tt)
        | false ↦ tt
      ]

after_new : Pool
unfolding put
after_new = put three_slots 0 (some (reinit 3 2 (picture 0)))

new_reaps : new plain three_slots 3 2 ≡ ok (after_new, some 0)
unfolding new find_from is_reapable has_cleanup header put after_new
new_reaps = refl

new-Hands_example : Hands three_slots after_new 0
new-Hands_example = new-Hands plain three_slots 3 2 new_reaps

reuse_loop-Revival_example : Revival plain three_slots 5 (reuse_loop 1 plain three_slots 5)
reuse_loop-Revival_example =
    reuse_loop-Revival plain (λ d. ==-refl d) 1 three_slots 5 three_slots-IsTracked (omega arith)

after_reuse : Pool
unfolding put set_fifo
after_reuse = put (set_fifo three_slots 5 []) 0 (some (picture 1))

reuse_revives : reuse plain three_slots (some 5) ≡ ok (put after_reuse 0 (some (picture 1)), some 0)
unfolding reuse reuse_loop wake header put set_fifo after_reuse
reuse_revives = refl

plain_wakes : (h : Header) → (wake plain h).users ≡ h.users
unfolding wake
plain_wakes h =
    elim h.theclass as (λ c. (elim c as (λ x. Header) [ none ↦ h | some k ↦ h ]).users ≡ h.users) [
      | none ↦ refl
      | some k ↦ refl
    ]

reuse-Hands_example : Hands three_slots (put after_reuse 0 (some (picture 1))) 0
reuse-Hands_example =
    reuse-Hands plain (λ d. ==-refl d) plain_wakes three_slots 5 three_slots-IsTracked reuse_revives

abbrev full_pool : Pool
full_pool = record { slots = some (picture 1) ∷ []; fifos = λ s. [] }

allocated : alloc_packet plain 3 2 ≡ some (reinit 3 2 (record (picture 1) { body = 7 ∷ 7 ∷ [] }))
unfolding alloc_packet reinit
allocated = refl

create-Creates_example : Creates (create plain full_pool 3 2)
create-Creates_example = create-Creates plain full_pool 3 2 (omega arith) allocated

shared_there : header three_slots 1 ≡ some (picture 2)
unfolding header
shared_there = refl

mark_unused-Released_example : Released three_slots 1 2 (mark_unused plain three_slots 1)
mark_unused-Released_example =
    mark_unused-Released plain three_slots 1 5 (picture 2) three_slots-IsTracked shared_there refl
      (omega arith)

after_clone : Pool
unfolding put
after_clone = put three_slots 0 (some (picture 2))

clone_keeps_users : clone_raw plain three_slots (picture 2) ≡ ok (after_clone, some 0)
unfolding clone_raw new find_from is_reapable has_cleanup header put after_clone reinit copy_header
clone_keeps_users = refl

clone_raw-writable_example : SharesCount 2 after_clone 0
clone_raw-writable_example =
    clone_raw-writable plain three_slots (picture 2) (omega arith) clone_keeps_users
