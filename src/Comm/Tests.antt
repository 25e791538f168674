-- ===== src/Comm/Tests.antt =====
-- A packet passed to three receivers, one of them busy.
use pdp.Base.{◌≡◌, refl, arith, false, ◌==◌, none, some, [], ◌∷◌, ok}
use pdp.Packet.{Header, Env, header}
use pdp.Packet.Revive.{IsTracked}
use pdp.Comm.{Patch, pass_if_valid}
use pdp.Comm.Passing.{no_copies, Passed, pass_if_valid-Passed}

abbrev classless : Env
classless = record {
  class_of = λ c. record {
    wakeup = none;
    copy = none;
    has_cleanup = false;
    sleep = none;
    type = none;
    create = none;
  };
  class_list = [];
  match_desc = λ a b. a == b;
  alloc = λ n. none;
}

abbrev frame : Header
frame = record {
  type = 1;
  desc = some 5;
  size = 258;
  flags = 0;
  users = 1;
  theclass = none;
  info = [];
  body = 1 ∷ 2 ∷ [];
}

abbrev one_packet : Patch
one_packet = record {
  pool = record { slots = some frame ∷ []; fifos = λ s. [] };
  inlets = none ∷ some 7 ∷ none ∷ [];
  dropped_packets = 0;
}

one_packet-IsTracked : IsTracked one_packet.pool
one_packet-IsTracked s = tt

frame_there : header one_packet.pool 0 ≡ some frame
unfolding header
frame_there = refl

pass_if_valid-Passed_example :
    Passed one_packet 0
      (λ s. ok s)
      (pass_if_valid classless no_copies (λ s. ok s) one_packet (some 0))
pass_if_valid-Passed_example =
    pass_if_valid-Passed classless (λ s. ok s) one_packet 0 5 frame one_packet-IsTracked frame_there
      refl refl (omega arith)
