-- ===== src/Tcp/Inv/Sets.antt =====
-- The invariant across initialisation, the dispatcher and the poll of src/net/mn_tcp.c.
use mega_net.Base.{
  Mem, IsBytes, offset, ltb, ◌==◌, if◌then◌else◌, ne→not-==, Bool-cases, Option-cases, u16, ℕ, zero,
  suc, ◌+◌, ◌*◌, ◌/◌, ◌^◌, ◌≤◌, ◌<◌, bit_and, bit_or, ◌≡◌, refl, sym, ◌∙◌, inl, inr, Bool, true,
  false, not, ◌||◌, Option, none, some, arith,
}
use mega_net.Net.State.{Sys}
use mega_net.Tcp.Calls.{initial, init_from, sockets_in, tcp_init}
use mega_net.Tcp.Dispatch.{
  owns, find_owner, find_listener, unowned, hand_over, dispatch, read_segment, tcp_input,
}
use mega_net.Tcp.Input.{Segment}
use mega_net.Tcp.Inv.{IsValid}
use mega_net.Tcp.Inv.Input.{segment_input-IsValid, passive_open-IsValid}
use mega_net.Tcp.Inv.Poll.{poll_one-IsValid}
use mega_net.Tcp.Poll.{poll_one, poll_from, tcp_poll}
use mega_net.Tcp.State.{
  fl_syn, fl_rst, fl_ack, has, tcp_hdr_len, tcp_rcvbuf, tcp_socket_xmem, Tcp, TcpSet, set_tcp,
  reset_counters,
}
use mega_net.Wire.Byteorder.{get16, get32}
use mega_net.Wire.Byteorder.Laws.{get32_sum}
use mega_net.Wire.Checksum.{checksum_pseudo}
use mega_net.Wire.Ipv4.{
  ipproto_tcp, ipv4_header_len, ipv4_src, ipv4_dst, ipv4_payload, ipv4_payload_len,
}
use mathlib.Core.Path.{subst}

-- Every socket of the set is valid.
abbrev pub AllValid : TcpSet → Type 0
AllValid set = (j : ℕ) → j < set.n → IsValid (set.sock j)

pub set_tcp-AllValid :
    (set : TcpSet) (i : ℕ) (t : Tcp) → AllValid set → IsValid t → AllValid (set_tcp set i t)
set_tcp-AllValid set i t a v j h = chosen (j == i)
  where
    chosen : (b : Bool) → IsValid (if b then t else set.sock j)
    chosen true = v
    chosen false = a j h

poll_from-AllValid :
    (n i : ℕ) (set : TcpSet) (s : Sys)
    → i + n ≤ set.n
    → AllValid set
    → AllValid (poll_from n i set s).0
unfolding poll_from
poll_from-AllValid zero i set s h a = a
poll_from-AllValid (suc n) i set s h a =
    let (t, s1) = poll_one (set.sock i) s set.now in
    let v = poll_one-IsValid (set.sock i) s set.now (a i (omega arith)) in
    poll_from-AllValid n (i + 1) (set_tcp set i t) s1 (omega arith) (set_tcp-AllValid set i t a v)

pub tcp_poll-AllValid :
    (set : TcpSet) (s : Sys) (now : ℕ) → AllValid set → AllValid (tcp_poll set s now).0
unfolding tcp_poll
tcp_poll-AllValid set s now a =
    poll_from-AllValid set.n 0 (record set { now = now }) s (omega arith) a

pub find_owner-owns :
    (n i : ℕ) (set : TcpSet) (sport dport : ℕ) (src : Mem) (j : ℕ)
    → find_owner n i set sport dport src ≡ some j
    → (j < i + n) × (owns (set.sock j) sport dport src ≡ true)
unfolding find_owner
find_owner-owns zero i set sport dport src j h = ground arith
find_owner-owns (suc n) i set sport dport src j h =
    ground (arith, find_owner-owns n (i + 1) set sport dport src j)

pub find_listener-in :
    (n i : ℕ) (set : TcpSet) (dport j : ℕ) → find_listener n i set dport ≡ some j → j < i + n
unfolding find_listener
find_listener-in zero i set dport j h = ground arith
find_listener-in (suc n) i set dport j h = ground (arith, find_listener-in n (i + 1) set dport j)

answered-AllValid :
    (set : TcpSet) (b : Bool) (x y : Sys) (k : ℕ)
    → AllValid set
    → AllValid (if◌then◌else◌ {A = TcpSet × Sys} b (set, x) (record set { rst_sent = k }, y)).0
answered-AllValid set true x y k a = a
answered-AllValid set false x y k a = a

unowned-AllValid :
    (set : TcpSet) (s : Sys) (ip : Mem) (g : Segment) (dport : ℕ)
    → AllValid set
    → AllValid (unowned set s ip g dport).0
unfolding unowned
unowned-AllValid set s ip g dport a =
    elim (Bool-cases (bit_and g.flags (bit_or fl_syn (bit_or fl_ack fl_rst)) == fl_syn)) [
      | inr n ↦ rw n (answered-AllValid set (has g.flags fl_rst) s _ _ a)
      | inl y ↦ elim (Option-cases (find_listener set.n 0 set dport)) [
        | inl e ↦ rw (y, e) (answered-AllValid set (has g.flags fl_rst) s _ _ a)
        | inr (i, e) ↦
            rw (y, e)
              (set_tcp-AllValid set i _ a (
                passive_open-IsValid set (set.sock i) s ip g.bytes g.hlen g.seq
                  (a i (omega (arith, find_listener-in set.n 0 set dport i e)))))
      ]
    ]

dispatch-AllValid :
    (set : TcpSet) (s : Sys) (ip : Mem) (g : Segment)
    → g.ack < 2 ^ 32
    → AllValid set
    → AllValid (dispatch set s ip g).0
unfolding dispatch
dispatch-AllValid set s ip g b a =
    by_owner (find_owner set.n 0 set sport dport (ipv4_src ip))
      (λ i. find_owner-owns set.n 0 set sport dport (ipv4_src ip) i)
  where
    sport : ℕ
    sport = get16 g.bytes

    dport : ℕ
    dport = get16 (offset g.bytes 2)

    by_owner :
        (o : Option ℕ)
        → ((i : ℕ)
            → o ≡ some i
            → (i < 0 + set.n) × (owns (set.sock i) sport dport (ipv4_src ip) ≡ true))
        → AllValid (hand_over o set s ip g dport).0
    by_owner none k = unowned-AllValid set s ip g dport a
    by_owner (some i) k =
        let (h, o) = k i refl in
        set_tcp-AllValid set i _ a (
          segment_input-IsValid (set.sock i) s.pool g set.now b (ground (arith, o))
            (a i (omega (arith, h))))

get32-word : (p : Mem) → IsBytes p → get32 p < 2 ^ 32
get32-word p h = omega (arith, get32_sum p (h 0) (h 1) (h 2) (h 3), h 0, h 1, h 2, h 3)

-- A guard that drops the segment.
kept-AllValid :
    (b : Bool) (set : TcpSet) (s : Sys) (y : TcpSet × Sys)
    → AllValid set
    → AllValid y.0
    → AllValid (if◌then◌else◌ {A = TcpSet × Sys} b (set, s) y).0
kept-AllValid true set s y a v = a
kept-AllValid false set s y a v = v

pub tcp_input-AllValid :
    (set : TcpSet) (s : Sys) (ip : Mem)
    → IsBytes ip
    → AllValid set
    → AllValid (tcp_input set s ip).0
unfolding tcp_input ipv4_payload read_segment get32
tcp_input-AllValid set s ip h a =
    let seg = ipv4_payload ip in
    let g = read_segment seg (ipv4_payload_len ip) in
    kept-AllValid (ltb (ipv4_payload_len ip) tcp_hdr_len) set s _ a (
      kept-AllValid
        (not
          (checksum_pseudo (ipv4_src ip) (ipv4_dst ip) ipproto_tcp seg (ipv4_payload_len ip) == 0))
        set s _ a
        (kept-AllValid (ltb g.hlen tcp_hdr_len || ltb (ipv4_payload_len ip) g.hlen) set s _ a (
          dispatch-AllValid set s ip g
            (get32-word (offset seg 8) (λ i. h (ipv4_header_len ip + (8 + i)))) a)))

pub init_from-before :
    (n i : ℕ) (set : TcpSet) (base j : ℕ) → j < i → (init_from n i set base).sock j ≡ set.sock j
unfolding init_from
init_from-before zero i set base j h = refl
init_from-before (suc n) i set base j h =
    init_from-before n (i + 1) _ base j (omega arith) ∙ rw (ne→not-== j i (omega arith)) refl

zeroed-IsValid :
    (t : Tcp)
    → t.snd_una < 2 ^ 32
    → t.snd_nxt < 2 ^ 32
    → t.rcv_nxt < 2 ^ 32
    → (index xseg rcv snd : ℕ) → IsValid (initial t index xseg rcv snd)
unfolding reset_counters
zeroed-IsValid t a b c index xseg rcv snd = ground arith

-- The three sequence numbers are 32-bit words.
abbrev pub HasWords : Tcp → Type 0
HasWords t = (t.snd_una < 2 ^ 32) × (t.snd_nxt < 2 ^ 32) × (t.rcv_nxt < 2 ^ 32)

chosen-HasWords :
    (b : Bool) (t u : Tcp) (index xseg rcv snd : ℕ)
    → HasWords t
    → HasWords u
    → HasWords (if b then initial t index xseg rcv snd else u)
unfolding reset_counters
chosen-HasWords true t u index xseg rcv snd w v = w
chosen-HasWords false t u index xseg rcv snd w v = v

init_from-IsValid :
    (n i : ℕ) (set : TcpSet) (base j : ℕ)
    → ((k : ℕ) → HasWords (set.sock k))
    → i ≤ j
    → j < i + n
    → IsValid ((init_from n i set base).sock j)
unfolding init_from
init_from-IsValid zero i set base j w p q = absurd (omega arith)
init_from-IsValid (suc n) i set base j w p q =
    let rcv = u16 (base + i * tcp_socket_xmem) in
    let t = initial (set.sock i) i (u16 (base / 2 ^ 16)) rcv (u16 (rcv + tcp_rcvbuf)) in
    let kept : (k : ℕ) → HasWords ((set_tcp set i t).sock k) =
      λ k. chosen-HasWords (k == i) (set.sock i) (set.sock k) _ _ _ _ (w i) (w k) in
    elim (Bool-cases (j == i)) [
      | inr e ↦
          init_from-IsValid n (i + 1) (set_tcp set i t) base j kept (ground arith) (ground arith)
      | inl e ↦
          subst IsValid (sym (init_from-before n (i + 1) (set_tcp set i t) base j (ground arith)))
            (rw e (zeroed-IsValid (set.sock i) (w i).0 (w i).1 (w i).2 _ _ _ _))
    ]

pub init_from-n : (n i : ℕ) (set : TcpSet) (base : ℕ) → (init_from n i set base).n ≡ set.n
unfolding init_from
init_from-n zero i set base = refl
init_from-n (suc n) i set base = init_from-n n (i + 1) _ base

pub tcp_init-AllValid :
    (socks : ℕ → Tcp) (n base : ℕ)
    → ((k : ℕ) → HasWords (socks k))
    → AllValid (tcp_init socks n base).0
unfolding tcp_init
tcp_init-AllValid socks n base w j h =
    let set : TcpSet = record { sock = socks; n = sockets_in n base; rst_sent = 0; now = 0 } in
    init_from-IsValid (sockets_in n base) 0 set base j w (omega arith)
      (omega (arith, h, init_from-n (sockets_in n base) 0 set base))
