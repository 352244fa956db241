-- ===== src/Lib.antt =====
-- mega-net: a TCP/IP stack for the MEGA65 (src/net), over bulk memory outside the program's image
-- (src/hal/mn_xmem_m65.c) and an Ethernet controller (src/hal/mn_eth45e100.c), called through a
-- jump table (src/abi/api.c).
--
-- The parts and how they interact. A frame arrives through the interface's driver. mn_net_poll
-- (src/net/mn_net.c) reads it, answers ARP requests, learns from ARP traffic and answers echo
-- requests; it hands UDP datagrams to a socket's buffer in bulk memory and TCP segments to
-- mn_tcp_input. mn_tcp_input (src/net/mn_tcp.c) finds the socket and runs its state machine;
-- mn_tcp_poll runs the timers and sends what is queued, through mn_net_tx_begin, which resolves
-- the next hop by ARP, and mn_net_tx_send. The DHCP, DNS and SNTP clients are machines that the
-- program polls; each borrows one UDP socket. The entries of src/abi/api.c stage a call's
-- parameter block from the caller's memory, call these routines and hand the results back; POLL
-- pulls one frame and runs the clients and the timers. A C program reaches the entries through the
-- wrappers of src/abi/meganet.h and a trampoline.
--
-- The files. Base holds the shared helpers: tests, words, byte memory, masks, lists. Wire models
-- the formats: Wire/Byteorder is src/net/mn_byteorder.h, Wire/Checksum mn_checksum.c, Wire/Ether
-- mn_ether.c, Wire/Arp and Wire/Arp/Cache mn_arp.c, Wire/Ipv4 mn_ipv4.c, Wire/Icmp mn_icmp.c,
-- Wire/Udp mn_udp.c. Xmem is src/hal/mn_xmem_m65.c. Hal/Bus is src/hal/mn_m65.h and Hal/Eth
-- src/hal/mn_eth45e100.c, Hal/Dma src/hal/mn_dma.c. Net is src/net/mn_net.c: State its records,
-- Transmit and Receive its two sides, Sockets the UDP sockets. Tcp is src/net/mn_tcp.c: State the
-- socket, Ring the rings, Emit the segments, Calls the application's side, Input segment_input,
-- Dispatch mn_tcp_input, Poll the timers. Ntp, Dns and Dhcp are src/net/mn_ntp.c, mn_dns.c and
-- mn_dhcp.c. Api is src/abi/api.c: State the machine and the transfers of blocks, Start
-- mn_api_init, Link the raw frames and the poll, Sockets the TCP entries, Datagrams the UDP
-- entries, Clients the entries of DHCP, DNS, SNTP and the clock, Config the addresses and
-- counters, Codes the numbers of the clients' states, Table the jump table. Caller is
-- src/abi/meganet.h: Staging the mailbox and the trampoline (src/abi/trampoline.S), Services and
-- Sockets the wrappers. A function mn_x of the program is x here, and a static function keeps its
-- name; where a name is taken, the module's word is put in front. Each module's laws stand in its
-- children; for Tcp they are Inv (the invariant), Queue (the byte streams), Order, Machine,
-- Sending, Timers, Layout (where the rings lie), Direct (the calls on outside memory as the plain
-- ones) and Reach (all calls as steps); for Net, Outgoing, Arrival and Across (a datagram between
-- two stations) and Deliver; for Hal, Waiting, Sent, Taken and Started; for Api, Reach and
-- Isolation (the calls and the sockets), Refusals, Streams and Frames (what is moved), Blocks,
-- Addresses, Clock, Ticks, Stats and Places; for Caller, Entries, Calls, Placed and Sending. Tests
-- applies the theorems at concrete inputs.
--
-- How the program is modelled. A pointer to bytes is the memory behind it, a function from offsets
-- to bytes. A struct is a record, and a routine that writes through a pointer returns the new
-- record. Integers are natural numbers with the wrap of their width written out. The network
-- layer's static frame buffers, its record, the interface and the bulk memory are one record,
-- Net.State.Sys, that the routines pass on. The driver is a parameter: two functions in the
-- interface's record say what a receive delivers and whether a transmission succeeds. The TCP
-- callback is a parameter of net_poll. The driver's own model has the hardware as a parameter:
-- what the n-th load of a register gives and what the receive window shows, with the stores and
-- copies kept in order as a trace. The machine of src/abi/api.c holds the whole stack; the
-- caller's memory and the socket buffers are one memory of 28-bit addresses, and the image's own
-- variables are not in it, so a caller's pointer into the image is outside the model. A caller's
-- own memory is the first 64 KB of it. The frame counter, the interface that INIT brings up and
-- the address of the interrupt counter come with each call.
--
-- Bounds and fuel. Loops over arrays recurse on the rounds left. The loops without a counter
-- recurse on fuel: the sending loop on the bytes queued, since a round puts a byte at least in
-- flight; the option loop of take_mss on the header's length, the walk of a DNS name and of DHCP
-- options on the message's length and the lease clock on the ticks, each of which a round shortens
-- by one at least; the years of a date on the days, of which a round takes off 365 at least. The
-- waits on the hardware recurse on 200 * 65536 rounds, the bound of their own counters, which is
-- proved to be enough.
--
-- Not modelled: what the DMA controller does with a job, which the transfers take to be a copy in
-- ascending order; the client's interrupt vectors (src/abi/meganet_vectors.c); the maps that the
-- trampoline sets and the zero page that the stubs of the jump table exchange; in src/abi/api.c
-- the branches that the default build compiles out, the probe of attic RAM and the diagnostic
-- interrupt stubs; debugging macros, experiments, tests and tools.
pub mod Base
pub mod Wire
pub mod Xmem
pub mod Hal
pub mod Net
pub mod Tcp
pub mod Ntp
pub mod Dns
pub mod Dhcp
pub mod Api
pub mod Caller
pub mod Tests
