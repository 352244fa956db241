-- ===== src/Net/Sockets.antt =====
-- The UDP sockets of src/net/mn_net.c: a port with a one-datagram mailbox.
use mega_net.Base.{
  Mem, ltb, leb, ◌==◌, if◌then◌else◌, ℕ, zero, suc, ◌+◌, Bool, true, false, not, Option, none, some,
}
use mega_net.Net.State.{udp_sockets, Net, set_sock, copy4}
use mega_net.Xmem.{xmem_read}

-- The first loop of `mn_net_udp_open`.
unfoldable pub port_in_use : ℕ → ℕ → Net → ℕ → Bool
port_in_use zero i net port = false
port_in_use (suc n) i net port =
    if (net.sock i).port == port then true else port_in_use n (i + 1) net port

-- The second: the first closed socket.
unfoldable pub closed_sock : ℕ → ℕ → Net → Option ℕ
closed_sock zero i net = none
closed_sock (suc n) i net = if (net.sock i).port == 0 then some i else closed_sock n (i + 1) net

unfoldable pub net_udp_open : Net → ℕ → Net × ℕ
net_udp_open net port =
    if port_in_use udp_sockets 0 net port
    then (net, 0xff)
    else elim (closed_sock udp_sockets 0 net) [
      | some i ↦ (set_sock net i (record (net.sock i) { port = port; pending = false }), i)
      | none ↦ (net, 0xff)
    ]

unfoldable pub net_udp_close : Net → ℕ → Net
net_udp_close net s =
    if ltb s udp_sockets
    then set_sock net s (record (net.sock s) { port = 0; pending = false })
    else net

-- What a successful receive hands out: the buffer with the datagram, `*len`, the source address
-- copied over `src_ip`, and the source port.
pub record Received : Type 0 where
  pub buf : Mem
  pub len : ℕ
  pub src_ip : Mem
  pub src_port : ℕ

unfoldable pub net_udp_recv : Net → Mem → ℕ → Mem → ℕ → Mem → Net × Option Received
net_udp_recv net pool s buf cap src_ip =
    let k = net.sock s in
    if leb udp_sockets s
    then (net, none)
    else if not k.pending
    then (net, none)
    else (let n = if ltb cap k.len then cap else k.len in
        (
          set_sock net s (record k { pending = false }),
          some (record {
            buf = xmem_read pool buf k.xseg k.xoff n;
            len = n;
            src_ip = copy4 src_ip k.src_ip;
            src_port = k.src_port;
          }),
        ))
