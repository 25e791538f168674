-- ===== src/Net/Send.antt =====
-- A whole run of `pdp_udp_sender_send`: what it sends.
use pdp.Base.{ℕ, ◌≡◌, refl, Bool, true, List, ◌++◌}
use pdp.Net.{Datagram, framed, runt, ok}
use pdp.Net.Sender.{Sender, send_chunks, Reply, keep_reply, Sent, need_resend, transmit}
use pdp.Net.Chunks.{transmission, IsSending, AllGenuine}

-- `y` is `x` still in the same transmission.
pub record Keeps (x y : Sender) : Type 0 where
  pub same : transmission y ≡ transmission x
  pub sending : IsSending x → IsSending y

Keeps-refl : (x : Sender) → Keeps x x
Keeps-refl x = record { same = refl; sending = λ s. s }

pub keep_reply-Keeps : (x : Sender) (desired : ℕ) (d : Datagram) → Keeps x (keep_reply x desired d)
unfolding keep_reply
keep_reply-Keeps x desired (runt n) = Keeps-refl x
keep_reply-Keeps x desired (framed h body) = record {
  same = refl;
  sending = λ s. record {
    sound = s.sound;
    size = s.size;
    room = s.room;
    count = s.count;
    type_fits = s.type_fits;
  };
}

-- What a part of the run leaves: it has sent genuine datagrams only, and stays in its transmission.
record Emits (x : Sender) (s : Sent Bool) : Type 0 where
  genuine : IsSending x → AllGenuine (transmission x) s.out
  keeps : Keeps x s.sender

-- A round of the transmission loop that came through: its burst, and the last round or the next.
data Round (rounds : ℕ) (x : Sender) (rs : List Reply) (s : Sent Bool) : Type 0 where
  last :
      (chunks : List Datagram)
      → send_chunks x ≡ ok chunks
      → s ≡ record (need_resend 3 x rs) { result = true; out = chunks ++ (need_resend 3 x rs).out }
      → Round rounds x rs s
  more :
      (chunks : List Datagram) (later : Sent Bool)
      → send_chunks x ≡ ok chunks
      → transmit rounds (need_resend 3 x rs).sender (need_resend 3 x rs).rest ≡ ok later
      → s ≡ record later { out = chunks ++ (need_resend 3 x rs).out ++ later.out }
      → Round rounds x rs s
