-- ===== src/Wire/Arp/Cache.antt =====
-- The ARP cache of src/net/mn_arp.c: four entries, replaced in turn.
pub mod Search
pub mod Laws
use mega_net.Base.{
  ℕ, zero, suc, ◌+◌, ◌%◌, Bool, true, false, not, ◌&&◌, Option, none, some, Mem, copy, eq, ◌==◌,
  if◌then◌else◌, u8,
}

abbrev pub arp_cache : ℕ
arp_cache = 4

-- `mn_arp_entry`; `valid` is a byte that is only set to 0 or 1.
pub record ArpEntry : Type 0 where
  pub ip : Mem
  pub mac : Mem
  pub valid : Bool

-- `mn_arp_cache`: the array `e`, and the entry that is replaced next.
pub record ArpCache : Type 0 where
  pub e : ℕ → ArpEntry
  pub next : ℕ

abbrev pub set_entry : ArpCache → ℕ → ArpEntry → ArpCache
set_entry c i x = record c { e = λ j. if j == i then x else c.e j }

-- The loop from `i` on with `n` rounds left.
unfoldable pub cache_init_from : ℕ → ℕ → ArpCache → ArpCache
cache_init_from zero i c = c
cache_init_from (suc n) i c =
    cache_init_from n (i + 1) (set_entry c i (record (c.e i) { valid = false }))

unfoldable pub arp_cache_init : ArpCache → ArpCache
arp_cache_init c = record (cache_init_from arp_cache 0 c) { next = 0 }

-- The first loop of `mn_arp_cache_learn`: the entry that holds `ip`.
unfoldable pub find_known : ℕ → ℕ → ArpCache → Mem → Option ℕ
find_known zero i c ip = none
find_known (suc n) i c ip =
    if (c.e i).valid && eq (c.e i).ip ip 4 then some i else find_known n (i + 1) c ip

-- The second: the index that it stops at, 4 if there is no free slot.
unfoldable pub find_free : ℕ → ℕ → ArpCache → ℕ
find_free zero i c = i
find_free (suc n) i c = if not (c.e i).valid then i else find_free n (i + 1) c

unfoldable pub arp_cache_learn : ArpCache → Mem → Mem → ArpCache
arp_cache_learn c ip mac = elim (find_known arp_cache 0 c ip) [
  | some i ↦ set_entry c i (record (c.e i) { mac = copy (c.e i).mac mac 6 })
  | none ↦
      let free = find_free arp_cache 0 c in
      let full = free == arp_cache in
      let i = if full then c.next else free in
      let c' = if full then record c { next = u8 ((c.next + 1) % arp_cache) } else c in
      set_entry c' i
        (record { ip = copy (c'.e i).ip ip 4; mac = copy (c'.e i).mac mac 6; valid = true })
]

-- `mn_arp_cache_lookup`, with the null pointer as `none`.
unfoldable pub lookup_from : ℕ → ℕ → ArpCache → Mem → Option Mem
lookup_from zero i c ip = none
lookup_from (suc n) i c ip =
    if (c.e i).valid && eq (c.e i).ip ip 4 then some (c.e i).mac else lookup_from n (i + 1) c ip

unfoldable pub arp_cache_lookup : ArpCache → Mem → Option Mem
arp_cache_lookup c ip = lookup_from arp_cache 0 c ip
