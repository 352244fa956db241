-- ===== src/Tests/Data.antt =====
-- The inputs: memory from a list of bytes, two stations, a machine and a connection.
use mega_net.Base.{
  get_or, Mem, IsBytes, ltb, ℕ, zero, suc, ◌<◌, ◌≡◌, refl, Bool, true, false, ◌&&◌, none, List, [],
  ◌∷◌, arith,
}
use mega_net.Net.State.{Sys}
use mega_net.Tcp.Input.{Segment}
use mega_net.Tcp.Inv.{IsValid}
use mega_net.Tcp.Queue.{HasRings}
use mega_net.Tcp.State.{established, Tcp, TcpSet}
use mega_net.Wire.Arp.Cache.{ArpCache}
use mega_net.Wire.Arp.Cache.Laws.{IsWellFormed}

abbrev pub bytes : List ℕ → Mem
bytes xs = λ i. get_or xs i 0

abbrev all_bytes : List ℕ → Bool
all_bytes [] = true
all_bytes (x ∷ xs) = ltb x 256 && all_bytes xs

pub bytes-IsBytes : (xs : List ℕ) → all_bytes xs ≡ true → IsBytes (bytes xs)
bytes-IsBytes [] h i = omega arith
bytes-IsBytes (x ∷ xs) h zero = ground arith
bytes-IsBytes (x ∷ xs) h (suc i) = bytes-IsBytes xs (ground arith) i

abbrev pub zeros : Mem
zeros = λ _. 0

pub zeros-IsBytes : IsBytes zeros
zeros-IsBytes i = omega arith

abbrev pub our_ip : Mem
our_ip = bytes (10 ∷ 0 ∷ 0 ∷ 2 ∷ [])

pub our_ip-IsBytes : IsBytes our_ip
our_ip-IsBytes = bytes-IsBytes (10 ∷ 0 ∷ 0 ∷ 2 ∷ []) refl

abbrev pub peer_ip : Mem
peer_ip = bytes (10 ∷ 0 ∷ 0 ∷ 1 ∷ [])

pub peer_ip-IsBytes : IsBytes peer_ip
peer_ip-IsBytes = bytes-IsBytes (10 ∷ 0 ∷ 0 ∷ 1 ∷ []) refl

abbrev pub our_mac : Mem
our_mac = bytes (2 ∷ 0 ∷ 0 ∷ 0 ∷ 0 ∷ 2 ∷ [])

pub our_mac-IsBytes : IsBytes our_mac
our_mac-IsBytes = bytes-IsBytes (2 ∷ 0 ∷ 0 ∷ 0 ∷ 0 ∷ 2 ∷ []) refl

-- An empty cache, and one that knows the peer.
abbrev pub cache : ArpCache
cache = record { e = λ _. record { ip = zeros; mac = zeros; valid = false }; next = 0 }

-- A machine whose driver hears nothing and takes every frame; port 5000 is open.
abbrev pub machine : Sys
machine = record {
  net = record {
    ip = our_ip;
    mask = bytes (255 ∷ 255 ∷ 255 ∷ 0 ∷ []);
    gw = peer_ip;
    arp = cache;
    sock = λ i. record {
      port = 5000;
      pending = false;
      src_ip = zeros;
      src_port = 0;
      len = 0;
      xseg = 0x800;
      xoff = 0xe000;
    };
    ip_id = 1;
    rx_frames = 0;
    arp_replies = 0;
    arp_learned = 0;
    echo_replies = 0;
    udp_rx = 0;
    udp_dropped = 0;
    tx_failures = 0;
  };
  nif = record { mac = our_mac; rx = λ n cap. none; tx = λ n f. true; polls = 0; sent = [] };
  rxf = zeros;
  txf = zeros;
  tx_mac = zeros;
  pool = zeros;
}

-- An established connection with 30 bytes to send, 10 of them in flight, and 5 to receive.
abbrev pub talking : Tcp
talking = record {
  state = established;
  flags = 0;
  index = 0;
  remote_ip = peer_ip;
  remote_port = 80;
  local_port = 49152;
  iss = 100;
  snd_una = 101;
  snd_nxt = 111;
  irs = 5000;
  rcv_nxt = 5001;
  adv_edge = 7049;
  snd_wnd = 1000;
  peer_mss = 1460;
  xseg = 0x800;
  rcvbuf = 0;
  sndbuf = 4096;
  snd_head = 3060;
  snd_len = 30;
  inflight = 10;
  cwnd = 2920;
  fin_queued = false;
  fin_sent = false;
  rcv_head = 4090;
  rcv_count = 5;
  ack_pending = false;
  syn_pending = false;
  tx_pending = true;
  sent_at = 0;
  rto = 50;
  timewait_at = 0;
  retries = 0;
  stat_rx_seg = 0;
  stat_tx_seg = 0;
  stat_retrans = 0;
  stat_ooo = 0;
}

pub talking-IsValid : IsValid talking
talking-IsValid = ground arith

pub talking-HasRings : HasRings talking
talking-HasRings = ground arith

-- A segment of four bytes, in order, that acknowledges the ten bytes in flight.
abbrev pub segment : Segment
segment = record {
  bytes = bytes (0 ∷ 80 ∷ 192 ∷ 0 ∷ []);
  hlen = 20;
  flags = 0x18;
  seq = 5001;
  ack = 111;
  dlen = 4;
}

abbrev pub sockets : TcpSet
sockets = record { sock = λ _. talking; n = 4; rst_sent = 0; now = 0 }

pub sockets-AllValid : (j : ℕ) → j < 4 → IsValid talking
sockets-AllValid j h = talking-IsValid

pub cache-IsWellFormed : IsWellFormed cache
cache-IsWellFormed = record {
  next_in = omega arith;
  distinct = λ i j h k n v w. absurd (ground arith);
}
