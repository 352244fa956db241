-- ===== src/Ntp/Client/Laws.antt =====
-- The number of requests of the SNTP client, src/net/mn_ntp.c.
use mega_net.Base.{
  Mem, offset, ◌==◌, if◌then◌else◌, u16, ℕ, ◌+◌, ◌≤◌, ◌<◌, bit_and, ◌≡◌, refl, Bool, true, false,
  Option, none, some, arith,
}
use mega_net.Net.Sockets.{net_udp_open, net_udp_close, Received, net_udp_recv}
use mega_net.Net.State.{Sys, set_net}
use mega_net.Ntp.Client.{
  done, is_waiting, Ntp, ntp_msg_len, ntp_max_tries, ntp_transmit, ntp_begun, ntp_start,
  is_ntp_reply, ntp_due, ntp_input, ntp_poll_waiting, ntp_poll,
}
use mega_net.Wire.Byteorder.{get32}

-- As many requests as are allowed at most, and fewer while one waits for an address.
pub record IsBounded (n : Ntp) : Type 0 where
  pub tries_le : n.tries ≤ ntp_max_tries
  pub pending_lt : n.pending ≡ true → n.tries < ntp_max_tries

ntp_transmit-IsBounded :
    (n : Ntp) (s : Sys) (now : ℕ) → n.tries < ntp_max_tries → IsBounded (ntp_transmit n s now).0
unfolding ntp_transmit
ntp_transmit-IsBounded n s now h = ground arith

ntp_due-IsBounded : (n : Ntp) (s : Sys) (now : ℕ) → IsBounded n → IsBounded (ntp_due n s now).0
unfolding ntp_due
ntp_due-IsBounded n s now b = ground (arith, ntp_transmit-IsBounded n s now)

chosen-IsBounded :
    (b : Bool) (x y : Ntp × Sys)
    → IsBounded x.0
    → IsBounded y.0
    → IsBounded (if◌then◌else◌ {A = Ntp × Sys} b x y).0
chosen-IsBounded true x y v w = v
chosen-IsBounded false x y v w = w

fresh-IsBounded : (n : Ntp) → n.tries ≡ 0 → IsBounded n
fresh-IsBounded n z = ground arith

pub ntp_start-IsBounded :
    (n : Ntp) (s : Sys) (server : Mem) (now : ℕ) → IsBounded (ntp_start n s server now).0
unfolding ntp_start
ntp_start-IsBounded n s server now =
    let net1 = if n.sock == 0xff then s.net else net_udp_close s.net n.sock in
    let port = u16 (50000 + bit_and now 0x0fff) in
    let (net2, sock) = net_udp_open net1 port in
    let n1 = ntp_begun n server port sock in
    chosen-IsBounded (sock == 0xff) (n1, set_net s net2) (ntp_transmit n1 (set_net s net2) now)
      (fresh-IsBounded n1 refl) (ntp_transmit-IsBounded n1 (set_net s net2) now (omega arith))

-- A poll of a client that has sent no more requests than are allowed, and fewer if one is waiting
-- for a hardware address, leaves it so.
pub ntp_poll-IsBounded :
    (n : Ntp) (s : Sys) (now : ℕ) → IsBounded n → IsBounded (ntp_poll n s now).0
unfolding ntp_poll ntp_poll_waiting
ntp_poll-IsBounded n s now b =
    let (net1, got) = net_udp_recv s.net s.pool n.sock n.msg ntp_msg_len (λ _. 0) in
    chosen-IsBounded (is_waiting n.state) (ntp_poll_waiting n s now) (n, s)
      (by_input got (set_net s net1)) b
  where
    heard : (n : Ntp) (m : Mem) → IsBounded n → IsBounded (record n { msg = m })
    heard n m b = ground arith

    ended :
        (n : Ntp) (m : Mem) (k : ℕ)
        → IsBounded n
        → IsBounded (record n { msg = m; seconds = k; state = done; sock = 0xff })
    ended n m k b = ground arith

    by_input : (o : Option Received) (s : Sys) → IsBounded (ntp_input o n s now).0
    by_input none s = unfold ntp_input in ntp_due-IsBounded n s now b
    by_input (some r) s =
        unfold ntp_input in
        chosen-IsBounded (is_ntp_reply r.buf r.len) _ _ (ended n r.buf (get32 (offset r.buf 40)) b)
          (ntp_due-IsBounded (record n { msg = r.buf }) s now (heard n r.buf b))
