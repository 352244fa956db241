-- ===== src/Caller/Sending.antt =====
-- `meganet_tcp_send_s` of src/abi/meganet.h down to the send ring.
use mega_net.Base.{Mem, ltb, if◌then◌else◌, ℕ, ◌+◌, ◌-◌, ◌^◌, ◌≤◌, ◌<◌, ◌≡◌, refl}
use mega_net.Api.Sockets.{api_tcp_send}
use mega_net.Api.State.{Machine}
use mega_net.Api.Table.{World}
use mega_net.Caller.Placed.{IsPlaced, at_send}
use mega_net.Caller.Services.{buffer_blk}
use mega_net.Caller.Sockets.{meganet_tcp_send_s}
use mega_net.Caller.Staging.{meganet_tr, load, load16, keep_results, stage_call, meganet_ptr28}
use mega_net.Tcp.Direct.Calls.{snd_ring}
use mega_net.Tcp.Inv.{IsValid}
use mega_net.Tcp.Queue.{HasRings, unsent}
use mega_net.Tcp.State.{Tcp}

-- What is claimed of the wrapper's send, where `r` is what it returns.
abbrev pub Sent : Machine → ℕ → ℕ → ℕ → Machine × ℕ → Type 0
Sent m s buf i r =
    let t = m.tcpset.sock s in
    let u = r.0.tcpset.sock s in
    (u.snd_len ≡ t.snd_len + r.1)
    × (unsent u r.0.sys.pool i
        ≡ (if ltb i t.snd_len then unsent t m.sys.pool i else load m (buf + (i - t.snd_len))))

tcpset-at_send : (p s buf len : ℕ) (m : Machine) → (at_send p s buf len m).tcpset ≡ m.tcpset
unfolding stage_call buffer_blk meganet_ptr28
tcpset-at_send p s buf len m = refl

tcpset-keep_results : (m : Machine) → (keep_results m).tcpset ≡ m.tcpset
unfolding keep_results
tcpset-keep_results m = refl

send_s-count :
    (w : World) (p s buf len : ℕ) (m : Machine)
    → (meganet_tcp_send_s w p s buf len m).1
      ≡ load16 (meganet_tcp_send_s w p s buf len m).0 (meganet_tr + 6)
unfolding meganet_tcp_send_s
send_s-count w p s buf len m = refl

-- The bytes that are claimed to be queued.
abbrev Queues : Machine → Tcp → ℕ → ℕ → Tcp → Mem → Type 0
Queues m t buf i u pool =
    unsent u pool i
    ≡ (if ltb i t.snd_len then unsent t m.sys.pool i else load m (buf + (i - t.snd_len)))

-- The call, in the machine that the wrapper stages.
module _ (p s buf len i : ℕ) (m : Machine) (n : s < m.tcpset.n) (v : IsValid (m.tcpset.sock s))
    (r : HasRings (m.tcpset.sock s)) (k : 2 ^ 16 ≤ snd_ring (m.tcpset.sock s))
    (h : IsPlaced p 5 buf len) where
  abbrev staged : Machine
  staged = at_send p s buf len m

  abbrev sent : Machine
  sent = api_tcp_send staged

  abbrev Claim : Tcp → Type 0
  Claim u =
      (u.snd_len ≡ (m.tcpset.sock s).snd_len + load16 (keep_results sent) (meganet_tr + 6))
      × Queues m (m.tcpset.sock s) buf i u (keep_results sent).sys.pool
