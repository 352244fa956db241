-- ===== src/Tests/Api.antt =====
-- The theorems on the program interface and the driver at a concrete machine.
use mega_net.Base.{
  Mem, offset, copy_from, copy, u16, ◌+◌, ◌≡◌, refl, inl, inr, some, [], ◌∷◌, arith,
}
use mega_net.Api.Clients.{rtc_base, api_set_rtc}
use mega_net.Api.Clock.{Shows, set_rtc-Shows}
use mega_net.Api.Frames.{Hands, api_link_rx-Hands}
use mega_net.Api.Link.{api_link_rx}
use mega_net.Api.Sockets.{api_tcp_recv}
use mega_net.Api.Start.{zero_dhcp, zero_dns, zero_ntp}
use mega_net.Api.State.{Machine, arg_ptr, blk_ptr, get16_le, fetch_blk}
use mega_net.Api.Streams.{Fills, api_tcp_recv-Fills}
use mega_net.Api.Table.{entry_init, entry_tcp_listen, World, call}
use mega_net.Api.Ticks.{total, ticks_over, ticks-ticks_over}
use mega_net.Caller.Sending.{Sent}
use mega_net.Hal.Eth.{Eth}
use mega_net.Tests.Data.{bytes, zeros, our_mac, machine, talking, talking-IsValid, talking-HasRings}
use mega_net.Xmem.{dma_copy_in}

-- The caller's memory: a block that says two bytes at $20.
abbrev outside : Mem
outside = bytes (32 ∷ 0 ∷ 0 ∷ 2 ∷ 0 ∷ [])

-- 24 December 2026, 20:30:59, a Thursday.
abbrev time_block : Mem
time_block = bytes (234 ∷ 7 ∷ 12 ∷ 24 ∷ 20 ∷ 30 ∷ 59 ∷ 4 ∷ [])

abbrev calling : Machine
calling = record {
  sys = record machine { pool = outside };
  dhcp = zero_dhcp;
  dns = zero_dns;
  ntp = zero_ntp;
  tcpset = record { sock = λ _. talking; n = 1; rst_sent = 0; now = 0 };
  pool_kind = 2;
  pool_base = 0x50000;
  window_irqs = 0;
  name = zeros;
  ticks = 9;
  last_frame = 0;
  blk = zeros;
  window = zeros;
  a = 0;
  x = 0;
  y = 0;
  z = 0;
  ra = 0;
  rx = 0;
  ry = 0;
  rz = 0;
}

abbrev world : World
world = record { nif = machine.nif; irqs = 0x4100; frames = 200 }

abbrev started : Machine
started = call entry_init world 0 0 0 0 calling

abbrev listened : Machine
listened = call entry_tcp_listen world 80 0 0 0 started

-- A frame of 68 bytes with its check sequence waits, and the transmitter is idle.
abbrev shown_bytes : Mem
shown_bytes = bytes (68 ∷ 0 ∷ 255 ∷ 255 ∷ [])

abbrev driver : Eth
driver = record {
  bus = record { read = λ n a. 0xA0; shown = λ k. shown_bytes; reads = 0; trace = [] };
  pad = zeros;
  meta = zeros;
  dbg = zeros;
}

api_tcp_recv-Fills_example : Fills calling 1 (api_tcp_recv calling)
unfolding fetch_blk blk_ptr arg_ptr get16_le dma_copy_in copy copy_from
api_tcp_recv-Fills_example =
    api_tcp_recv-Fills calling 1 talking-IsValid talking-HasRings (omega arith) (omega arith)
      (inl (omega arith)) (inr (omega arith)) (omega arith)

set_rtc-Shows_example :
    Shows
      (offset
        (api_set_rtc (record calling { sys = record machine { pool = time_block } })).sys.pool
        rtc_base)
      (offset
        (record calling { sys = record machine { pool = time_block } }).sys.pool
        (arg_ptr (record calling { sys = record machine { pool = time_block } })))
unfolding arg_ptr
set_rtc-Shows_example =
    set_rtc-Shows (record calling { sys = record machine { pool = time_block } })
      (record {
        year = (omega arith, omega arith);
        month = omega arith;
        day = omega arith;
        hour = omega arith;
        minute = omega arith;
        second = omega arith;
        weekday = omega arith;
      })

ticks-ticks_over_example :
    (ticks_over 250 (20 ∷ 200 ∷ []) (record calling { last_frame = 250 })).ticks
    ≡ u16 ((record calling { last_frame = 250 }).ticks + total (20 ∷ 200 ∷ []))
ticks-ticks_over_example =
    ticks-ticks_over 250 (20 ∷ 200 ∷ []) (record calling { last_frame = 250 }) (omega arith)
      (omega arith) (omega arith)

api_link_rx-Hands_example :
    Hands
      (record calling {
        sys = record (calling.sys) {
          nif = record (machine.nif) { rx = λ n cap. some (record { bytes = our_mac; len = 6 }) };
        };
      })
      (record { bytes = our_mac; len = 6 })
      4
      (api_link_rx (record calling {
        sys = record (calling.sys) {
          nif = record (machine.nif) { rx = λ n cap. some (record { bytes = our_mac; len = 6 }) };
        };
      }))
unfolding fetch_blk blk_ptr arg_ptr get16_le dma_copy_in copy copy_from
api_link_rx-Hands_example =
    api_link_rx-Hands
      (record calling {
        sys = record (calling.sys) {
          nif = record (machine.nif) { rx = λ n cap. some (record { bytes = our_mac; len = 6 }) };
        };
      })
      (record { bytes = our_mac; len = 6 }) 4 refl (inr (omega arith)) (omega arith)
