-- ===== src/Tcp/Timers.antt =====
-- The timers of `poll_one` in src/net/mn_tcp.c.
use mega_net.Base.{ℕ, ◌≡◌, arith}
use mega_net.Tcp.Input.{handle_ack}
use mega_net.Tcp.State.{Tcp}

pub handle_ack-duplicate : (t : Tcp) (now : ℕ) → handle_ack t t.snd_una now ≡ t
unfolding handle_ack
handle_ack-duplicate t now = ground arith
