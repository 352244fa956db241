-- ===== src/Wire/Arp/Cache/Laws.antt =====
-- Learning in and looking up the ARP cache of src/net/mn_arp.c.
use mega_net.Base.{
  Mem, copy, eq, eq-copy, eq-same, eq_trans, eq_comm, ltb, leb, ◌==◌, if◌then◌else◌, Bool-cases,
  Option-cases, u8, ℕ, zero, suc, ◌+◌, ◌%◌, ◌<◌, ◌≡◌, refl, ◌∙◌, ◌≢◌, ◌⊎◌, inl, inr, true, false,
  ◌&&◌, none, some, arith,
}
use mega_net.Wire.Arp.Cache.{
  arp_cache, ArpCache, set_entry, cache_init_from, arp_cache_init, find_known, find_free,
  arp_cache_learn, lookup_from, arp_cache_lookup,
}
use mega_net.Wire.Arp.Cache.Search.{
  holds, find_known-some, find_known-none, find_free-le, lookup_from-set_hit, lookup_from-set_miss,
  lookup_from-set_evict,
}

-- The entries in use hold different addresses, and the next one to replace is an entry.
pub record IsWellFormed (c : ArpCache) : Type 0 where
  pub next_in : c.next < arp_cache
  pub distinct :
      (i j : ℕ)
      → i < arp_cache
      → j < arp_cache
      → i ≢ j
      → (c.e i).valid ≡ true
      → (c.e j).valid ≡ true
      → eq (c.e i).ip (c.e j).ip 4 ≡ false

init-valid :
    (n i : ℕ) (c : ArpCache) (j : ℕ)
    → ((cache_init_from n i c).e j).valid
      ≡ (if leb i j && ltb j (i + n) then false else (c.e j).valid)
unfolding cache_init_from
init-valid zero i c j = ground arith
init-valid (suc n) i c j =
    ground (arith, init-valid n (i + 1) (set_entry c i (record (c.e i) { valid = false })) j)

pub arp_cache_init-IsWellFormed : (c : ArpCache) → IsWellFormed (arp_cache_init c)
unfolding arp_cache_init
arp_cache_init-IsWellFormed c = record {
  next_in = omega arith;
  distinct = λ i j h k n v w. absurd (ground (arith, init-valid arp_cache 0 c i));
}

-- The three ways in which an address is entered.
data Learned (c : ArpCache) (ip mac : Mem) (r : ArpCache) : Type 0 where
  refreshed :
      (k : ℕ)
      → k < arp_cache
      → holds c k ip ≡ true
      → r ≡ set_entry c k (record (c.e k) { mac = copy (c.e k).mac mac 6 })
      → Learned c ip mac r
  entered :
      (k : ℕ)
      → k < arp_cache
      → ((j : ℕ) → j < arp_cache → holds c j ip ≡ false)
      → (c.e k).valid ≡ false
      → r
        ≡ set_entry c k
            (record { ip = copy (c.e k).ip ip 4; mac = copy (c.e k).mac mac 6; valid = true })
      → Learned c ip mac r
  replaced :
      ((j : ℕ) → j < arp_cache → holds c j ip ≡ false)
      → find_free arp_cache 0 c ≡ arp_cache
      → r
        ≡ set_entry
            (record c { next = u8 ((c.next + 1) % arp_cache) })
            c.next
            (record {
              ip = copy (c.e c.next).ip ip 4;
              mac = copy (c.e c.next).mac mac 6;
              valid = true;
            })
      → Learned c ip mac r

learn-cases : (c : ArpCache) (ip mac : Mem) → Learned c ip mac (arp_cache_learn c ip mac)
unfolding arp_cache_learn
learn-cases c ip mac = elim (Option-cases (find_known arp_cache 0 c ip)) [
  | inl e ↦ elim (Bool-cases (find_free arp_cache 0 c == arp_cache)) [
    | inl f ↦
        replaced (λ j h. find_known-none arp_cache 0 c ip j e (omega arith) h) (ground arith)
          (rw (e, arp_cache_learn, f))
    | inr f ↦
        entered (find_free arp_cache 0 c) (ground (arith, (find_free-le arp_cache 0 c).0))
          (λ j h. find_known-none arp_cache 0 c ip j e (omega arith) h)
          ((find_free-le arp_cache 0 c).1 (ground (arith, (find_free-le arp_cache 0 c).0)))
          (rw (e, arp_cache_learn, f))
  ]
  | inr (k, e) ↦
      let s = find_known-some arp_cache 0 c ip k e in refreshed k s.1 s.2 (rw (e, arp_cache_learn))
]

-- The entry that holds an address is the only one that does.
others_miss :
    {c : ArpCache} (ip : Mem) (k j : ℕ)
    → IsWellFormed c
    → k < arp_cache
    → j < arp_cache
    → j ≢ k
    → holds c k ip ≡ true
    → holds c j ip ≡ false
others_miss {c} ip k j v a b n h =
    ground (arith, v.distinct j k, eq_trans (c.e j).ip ip (c.e k).ip 4, eq_comm (c.e k).ip ip 4)

-- A new entry holds the address that was copied into it.
new_holds : (old ip : Mem) → eq (copy old ip 4) ip 4 ≡ true
new_holds old ip = eq-copy old ip ip 4 ∙ eq-same ip 4

lookup-of_cases :
    {c : ArpCache} {ip mac : Mem} {r : ArpCache}
    → IsWellFormed c
    → Learned c ip mac r
    → (m : Mem) × (arp_cache_lookup r ip ≡ some m) × (eq m mac 6 ≡ true)
unfolding arp_cache_lookup
lookup-of_cases {c} {ip} {mac} v (refreshed k b h e) = (
  copy (c.e k).mac mac 6,
  rw e (
      lookup_from-set_hit c k _ ip arp_cache 0
        (λ j p q. others_miss ip k j v b (omega arith) (omega arith) h) h (omega arith) b),
  eq-copy (c.e k).mac mac mac 6 ∙ eq-same mac 6,
)
lookup-of_cases {c} {ip} {mac} v (entered k b h w e) = (
  copy (c.e k).mac mac 6,
  rw e (
      lookup_from-set_hit c k _ ip arp_cache 0 (λ j p q. h j (omega arith)) (new_holds _ ip)
        (omega arith) b),
  eq-copy (c.e k).mac mac mac 6 ∙ eq-same mac 6,
)
lookup-of_cases {c} {ip} {mac} v (replaced h w e) = (
  copy (c.e c.next).mac mac 6,
  rw e (
      lookup_from-set_hit _ c.next _ ip arp_cache 0 (λ j p q. h j (omega (arith, v.next_in)))
        (new_holds _ ip) (omega arith) v.next_in),
  eq-copy (c.e c.next).mac mac mac 6 ∙ eq-same mac 6,
)

-- After an address is learned in a well-formed cache, looking it up gives the hardware address
-- learned with it.
pub arp_cache_lookup-learn :
    (c : ArpCache) (ip mac : Mem)
    → IsWellFormed c
    → (m : Mem) × (arp_cache_lookup (arp_cache_learn c ip mac) ip ≡ some m) × (eq m mac 6 ≡ true)
arp_cache_lookup-learn c ip mac v = lookup-of_cases v (learn-cases c ip mac)

-- Overwriting an entry by one whose address no other entry holds keeps them distinct.
set_entry-IsWellFormed :
    {c : ArpCache} (k nx : ℕ) (ip mac : Mem)
    → IsWellFormed c
    → nx < arp_cache
    → ((j : ℕ) → j < arp_cache → holds c j ip ≡ false)
    → IsWellFormed (
        set_entry
          (record c { next = nx })
          k
          (record { ip = copy (c.e k).ip ip 4; mac = mac; valid = true }))
set_entry-IsWellFormed {c} k nx ip mac v b h = record {
  next_in = b;
  distinct = λ i j p q n. ground (
    arith,
    v.distinct i j p q n,
    h i p,
    h j q,
    eq-copy (c.e k).ip ip (c.e j).ip 4,
    eq_comm ip (c.e j).ip 4,
    eq-copy (c.e k).ip ip (c.e i).ip 4,
    eq_comm (c.e i).ip (copy (c.e k).ip ip 4) 4,
    eq_comm ip (c.e i).ip 4,
  );
}

IsWellFormed-of_cases :
    {c : ArpCache} {ip mac : Mem} {r : ArpCache}
    → IsWellFormed c
    → Learned c ip mac r
    → IsWellFormed r
IsWellFormed-of_cases {c} v (refreshed k b h e) =
    rw e
      (record { next_in = v.next_in; distinct = λ i j p q n. ground (arith, v.distinct i j p q n) })
IsWellFormed-of_cases {c} {ip} {mac} v (entered k b h w e) =
    rw e (set_entry-IsWellFormed k c.next ip (copy (c.e k).mac mac 6) v v.next_in h)
IsWellFormed-of_cases {c} {ip} {mac} v (replaced h w e) = rw e (
    set_entry-IsWellFormed c.next (u8 ((c.next + 1) % arp_cache)) ip (copy (c.e c.next).mac mac 6) v
      (omega arith) h)

-- Learning keeps a cache well formed: the entries in use hold different addresses, and the next
-- one to replace is an entry.
pub arp_cache_learn-IsWellFormed :
    (c : ArpCache) (ip mac : Mem) → IsWellFormed c → IsWellFormed (arp_cache_learn c ip mac)
arp_cache_learn-IsWellFormed c ip mac v = IsWellFormed-of_cases v (learn-cases c ip mac)

-- What learning one address does to the lookup of another.
abbrev pub Keeps : ArpCache → ArpCache → Mem → Type 0
Keeps c r q =
    (arp_cache_lookup r q ≡ arp_cache_lookup c q)
    ⊎ ((arp_cache_lookup r q ≡ none)
        × (find_free arp_cache 0 c ≡ arp_cache)
        × (holds c c.next q ≡ true))

Keeps-of_cases :
    {c : ArpCache} {ip mac : Mem} {r : ArpCache} (q : Mem)
    → IsWellFormed c
    → eq ip q 4 ≡ false
    → Learned c ip mac r
    → Keeps c r q
unfolding arp_cache_lookup
Keeps-of_cases {c} {ip} q v d (refreshed k b h e) = inl (
    rw e (
      lookup_from-set_miss c k _ q arp_cache 0 (ground (arith, eq_trans (c.e k).ip ip q 4))
        (ground (arith, eq_trans (c.e k).ip ip q 4))))
Keeps-of_cases {c} {ip} q v d (entered k b h w e) = inl (
    rw e (
      lookup_from-set_miss c k _ q arp_cache 0 (ground arith)
        (ground (arith, eq-copy (c.e k).ip ip q 4))))
Keeps-of_cases {c} {ip} q v d (replaced h w e) = elim (Bool-cases (holds c c.next q)) [
  | inl y ↦ inr (
    rw e (
        lookup_from-set_evict _ c.next _ q arp_cache 0
          (λ j p n. others_miss q c.next j v v.next_in p n y)
          (ground (arith, eq-copy (c.e c.next).ip ip q 4))),
    w,
    y,
  )
  | inr n ↦ inl (
      rw e (
        lookup_from-set_miss _ c.next _ q arp_cache 0 n
          (ground (arith, eq-copy (c.e c.next).ip ip q 4))
        ∙ (unfold lookup_from in refl)))
]

-- Learning an address in a well-formed cache leaves what is known of every other address as it
-- was, but for the one in the entry that is next in turn, which is forgotten, and only while
-- every entry is in use.
pub arp_cache_lookup-learn_other :
    (c : ArpCache) (ip mac q : Mem)
    → IsWellFormed c
    → eq ip q 4 ≡ false
    → Keeps c (arp_cache_learn c ip mac) q
arp_cache_lookup-learn_other c ip mac q v d = Keeps-of_cases q v d (learn-cases c ip mac)
