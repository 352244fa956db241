-- ===== src/Api/Reach.antt =====
-- The entries of src/abi/api.c as steps of the TCP sockets.
use mega_net.Base.{
  Mem, IsBytes, offset, copy, copy-IsBytes, if◌then◌else◌, ltb→lt, Bool-cases, Option-cases, u16, ℕ,
  ◌+◌, ◌<◌, ◌≡◌, refl, sym, ◌∙◌, ◌⊎◌, inl, inr, none, some, arith,
}
use mega_net.Api.Isolation.{handler-tcpset}
use mega_net.Api.Link.{poll_net, poll_dhcp, poll_dns, poll_ntp, poll_tcp, api_poll}
use mega_net.Api.Sockets.{
  sock_z, connect_z, api_tcp_connect, listen_z, api_tcp_listen, send_z, api_tcp_send, recv_z,
  api_tcp_recv, api_tcp_close, abort_z, api_tcp_abort,
}
use mega_net.Api.Start.{zero_tcp, clear_bss, probe_pool, init_sockets, api_init}
use mega_net.Api.State.{
  abi_tcp_sockets, pool_bank5, Machine, tick, set_sys, fetch_blk, put_out, give_blk,
}
use mega_net.Api.Table.{
  Entry, entry_init, entry_poll, entry_tcp_connect, entry_tcp_send, entry_tcp_recv, entry_tcp_close,
  entry_tcp_abort, entry_tcp_listen, World, handler, call,
}
use mega_net.Net.Receive.{ipv4_input, frame_input, net_poll}
use mega_net.Net.State.{Frame, Netif, Sys}
use mega_net.Tcp.Dispatch.{tcp_input}
use mega_net.Tcp.Reach.{
  Step, connects, listens, sends_x, receives_x, closes, aborts, arrives, polls, Reachable, begins,
  goes,
}
use mega_net.Tcp.State.{TcpSet}
use mega_net.Wire.Ether.{eth_hdr_len, max_frame}
use mathlib.Core.Path.{subst}

-- The frame buffer and what the driver delivers are bytes, as their C type says.
pub record HoldsBytes (s : Sys) : Type 0 where
  pub buffered : IsBytes s.rxf
  pub delivered : (k cap : ℕ) (frame : Frame) → s.nif.rx k cap ≡ some frame → IsBytes frame.bytes

ipv4_input-tcp :
    (set : TcpSet) (s : Sys) (len : ℕ)
    → ((ipv4_input (some tcp_input) set s len).0 ≡ set)
      ⊎ ((ipv4_input (some tcp_input) set s len).0 ≡ (tcp_input set s (offset s.rxf eth_hdr_len)).0)
unfolding ipv4_input
ipv4_input-tcp set s len = ground arith

-- What a received frame does to the sockets: nothing, or what its packet does.
frame_input-tcp :
    (set : TcpSet) (s : Sys) (len : ℕ)
    → ((frame_input (some tcp_input) set s len).0 ≡ set)
      ⊎ ((frame_input (some tcp_input) set s len).0
          ≡ (tcp_input set s (offset s.rxf eth_hdr_len)).0)
unfolding frame_input
frame_input-tcp set s len = ground (arith, ipv4_input-tcp set s len)

-- The machine of the network layer when a frame has come.
abbrev pulled : Sys → Frame → Sys
pulled s frame = record s {
  nif = record s.nif { polls = s.nif.polls + 1 };
  rxf = copy s.rxf frame.bytes frame.len;
  net = record s.net { rx_frames = u16 (s.net.rx_frames + 1) };
}

net_poll-none :
    (set : TcpSet) (s : Sys)
    → s.nif.rx s.nif.polls max_frame ≡ none
    → (net_poll (some tcp_input) set s).0.0 ≡ set
unfolding net_poll
net_poll-none set s e = ground arith

net_poll-some :
    (set : TcpSet) (s : Sys) (frame : Frame)
    → s.nif.rx s.nif.polls max_frame ≡ some frame
    → (net_poll (some tcp_input) set s).0.0
      ≡ (frame_input (some tcp_input) set (pulled s frame) frame.len).0
unfolding net_poll
net_poll-some set s frame e = ground arith

module _ (P : TcpSet → Type 0) (set : TcpSet) (here : P set)
    (arrived : (s : Sys) (ip : Mem) → IsBytes ip → P (tcp_input set s ip).0) where
  frame_input-keeps :
      (s : Sys) (len : ℕ) → IsBytes s.rxf → P (frame_input (some tcp_input) set s len).0
  frame_input-keeps s len h = elim (frame_input-tcp set s len) [
    | inl e ↦ subst P (sym e) here
    | inr e ↦ subst P (sym e) (arrived s (offset s.rxf eth_hdr_len) (λ i. h (eth_hdr_len + i)))
  ]

  net_poll-keeps : (s : Sys) → HoldsBytes s → P (net_poll (some tcp_input) set s).0.0
  net_poll-keeps s b = elim (Option-cases (s.nif.rx s.nif.polls max_frame)) [
    | inl e ↦ subst P (sym (net_poll-none set s e)) here
    | inr (frame, e) ↦ subst P (sym (net_poll-some set s frame e)) (
        frame_input-keeps (pulled s frame) frame.len
          (copy-IsBytes s.rxf frame.bytes frame.len b.buffered (b.delivered _ _ frame e)))
  ]

poll_net-Reachable :
    (m : Machine) → HoldsBytes m.sys → Reachable m.tcpset → Reachable (poll_net m).0.tcpset
unfolding poll_net
poll_net-Reachable m b r =
    net_poll-keeps Reachable m.tcpset r (λ s ip h. goes m.tcpset _ r (arrives s ip h)) m.sys b

poll_dhcp-tcpset : (m : Machine) → (poll_dhcp m).tcpset ≡ m.tcpset
unfolding poll_dhcp
poll_dhcp-tcpset m = ground arith

poll_dns-tcpset : (m : Machine) → (poll_dns m).tcpset ≡ m.tcpset
unfolding poll_dns
poll_dns-tcpset m = ground arith

poll_ntp-tcpset : (m : Machine) → (poll_ntp m).tcpset ≡ m.tcpset
unfolding poll_ntp
poll_ntp-tcpset m = ground arith

polled-tcpset :
    (f : ℕ) (m : Machine) → (poll_ntp (poll_dns (poll_dhcp (tick f m)))).tcpset ≡ m.tcpset
unfolding tick
polled-tcpset f m =
    poll_ntp-tcpset (poll_dns (poll_dhcp (tick f m)))
    ∙ poll_dns-tcpset (poll_dhcp (tick f m))
    ∙ poll_dhcp-tcpset (tick f m)

poll_tcp-Reachable : (m : Machine) → Reachable m.tcpset → Reachable (poll_tcp m).tcpset
unfolding poll_tcp
poll_tcp-Reachable m r = goes m.tcpset _ r (polls m.sys m.ticks)

api_poll-Reachable :
    (f : ℕ) (m : Machine) → HoldsBytes m.sys → Reachable m.tcpset → Reachable (api_poll f m).tcpset
unfolding api_poll
api_poll-Reachable f m b r =
    poll_tcp-Reachable _
      (subst Reachable (sym (polled-tcpset f (poll_net m).0)) (poll_net-Reachable m b r))

-- A call on the socket in Z, or none where the index has no socket.
module _ (m : Machine) (r : Reachable m.tcpset) where
  guarded :
      (x y : Machine)
      → (m.z < m.tcpset.n → Reachable x.tcpset)
      → Reachable y.tcpset
      → Reachable (if sock_z m then x else y).tcpset
  guarded x y p q = elim (Bool-cases (sock_z m)) [
    | inl e ↦ rw e (p (ltb→lt m.z m.tcpset.n e))
    | inr e ↦ rw e q
  ]

  steps : (next : TcpSet) → Step m.tcpset next → Reachable next
  steps next = goes m.tcpset next r

  connect-Reachable : (f : ℕ) → Reachable (api_tcp_connect f m).tcpset
  unfolding api_tcp_connect connect_z fetch_blk tick
  connect-Reachable f = guarded _ _ (λ h. steps _ (connects m.z _ _ _ _ h)) r

  listen-Reachable : Reachable (api_tcp_listen m).tcpset
  unfolding api_tcp_listen listen_z
  listen-Reachable = guarded _ _ (λ h. steps _ (listens m.z _ h)) r

  send-Reachable : Reachable (api_tcp_send m).tcpset
  unfolding api_tcp_send send_z fetch_blk
  send-Reachable = guarded _ _ (λ h. steps _ (sends_x m.z _ _ _ h)) r

  recv-Reachable : Reachable (api_tcp_recv m).tcpset
  unfolding api_tcp_recv recv_z fetch_blk give_blk put_out
  recv-Reachable = guarded _ _ (λ h. steps _ (receives_x m.z _ _ _ h)) r

  close-Reachable : Reachable (api_tcp_close m).tcpset
  unfolding api_tcp_close
  close-Reachable = guarded _ _ (λ h. steps _ (closes m.z h)) r

  abort-Reachable : Reachable (api_tcp_abort m).tcpset
  unfolding api_tcp_abort abort_z
  abort-Reachable = guarded _ _ (λ h. steps _ (aborts m.z m.sys h)) r

init-Reachable : (nif : Netif) (irqs f : ℕ) (m : Machine) → Reachable (api_init nif irqs f m).tcpset
unfolding api_init init_sockets clear_bss probe_pool
init-Reachable nif irqs f m =
    begins (λ _. zero_tcp) abi_tcp_sockets pool_bank5 (λ k. (omega arith, omega arith, omega arith))

pub handler-Reachable :
    (e : Entry) (w : World) (m : Machine)
    → HoldsBytes m.sys
    → Reachable m.tcpset
    → Reachable (handler e w m).tcpset
handler-Reachable entry_init w m b r = init-Reachable w.nif w.irqs w.frames m
handler-Reachable entry_poll w m b r = api_poll-Reachable w.frames m b r
handler-Reachable entry_tcp_connect w m b r = connect-Reachable m r w.frames
handler-Reachable entry_tcp_send w m b r = send-Reachable m r
handler-Reachable entry_tcp_recv w m b r = recv-Reachable m r
handler-Reachable entry_tcp_close w m b r = close-Reachable m r
handler-Reachable entry_tcp_abort w m b r = abort-Reachable m r
handler-Reachable entry_tcp_listen w m b r = listen-Reachable m r
handler-Reachable e w m b r = subst Reachable (sym (handler-tcpset e w m refl)) r

-- A machine that has been started, through any calls, with the caller's program writing memory of its
-- own between them.
pub data Runs : Machine → Type 0 where
  starts : (w : World) (a x y z : ℕ) (m : Machine) → Runs (call entry_init w a x y z m)
  calls :
      (e : Entry) (w : World) (a x y z : ℕ) (m : Machine)
      → HoldsBytes m.sys
      → Runs m
      → Runs (call e w a x y z m)
  writes : (m : Machine) (pool : Mem) → Runs m → Runs (set_sys m (record m.sys { pool = pool }))

pub Runs-Reachable : (m : Machine) → Runs m → Reachable m.tcpset
unfolding call
Runs-Reachable _ (starts w a x y z m) = init-Reachable w.nif w.irqs w.frames _
Runs-Reachable _ (calls e w a x y z m b r) = handler-Reachable e w _ b (Runs-Reachable m r)
Runs-Reachable _ (writes m pool r) = Runs-Reachable m r
