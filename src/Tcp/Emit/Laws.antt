-- ===== src/Tcp/Emit/Laws.antt =====
-- What `emit` of src/net/mn_tcp.c changes in its socket.
use mega_net.Base.{if◌then◌else◌, Bool-cases, u16, u32, ℕ, ◌+◌, ◌≡◌, inl, inr, Bool}
use mega_net.Net.State.{Sys}
use mega_net.Net.Transmit.{net_tx_begin}
use mega_net.Tcp.Emit.{emit}
use mega_net.Tcp.State.{fl_ack, has, Tcp, adv_window}

abbrev pub emitted : Tcp → ℕ → ℕ → Tcp
emitted t e k = record t { adv_edge = e; stat_tx_seg = k }

pub emit-emitted :
    (t : Tcp) (s : Sys) (flags seq off len : ℕ) (m : Bool)
    → (e : ℕ) × (k : ℕ) × ((emit t s flags seq off len m).0 ≡ emitted t e k)
unfolding emit
emit-emitted t s flags seq off len m = elim (Bool-cases (net_tx_begin s t.remote_ip).1) [
  | inl y ↦ (
    (if has flags fl_ack then u32 (t.rcv_nxt + adv_window t) else t.adv_edge),
    u16 (t.stat_tx_seg + 1),
    rw (y, emit),
  )
  | inr n ↦ (t.adv_edge, t.stat_tx_seg, rw (n, emit))
]
