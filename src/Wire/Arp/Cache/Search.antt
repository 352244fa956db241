-- ===== src/Wire/Arp/Cache/Search.antt =====
-- The three loops over the entries of the cache in src/net/mn_arp.c, and where they stop.
use mega_net.Base.{
  Mem, eq, ℕ, zero, suc, ◌+◌, ◌≤◌, ◌<◌, ◌≡◌, refl, ◌≢◌, Bool, true, false, ◌&&◌, none, some, arith,
}
use mega_net.Wire.Arp.Cache.{ArpEntry, ArpCache, set_entry, find_known, find_free, lookup_from}

-- The test of the first loop and of the lookup.
abbrev pub holds : ArpCache → ℕ → Mem → Bool
holds c i ip = (c.e i).valid && eq (c.e i).ip ip 4

pub find_known-some :
    (n i : ℕ) (c : ArpCache) (ip : Mem) (k : ℕ)
    → find_known n i c ip ≡ some k
    → (i ≤ k) × (k < i + n) × (holds c k ip ≡ true)
unfolding find_known
find_known-some zero i c ip k h = cc
find_known-some (suc n) i c ip k h = ground (arith, find_known-some n (i + 1) c ip k)

pub find_known-none :
    (n i : ℕ) (c : ArpCache) (ip : Mem) (k : ℕ)
    → find_known n i c ip ≡ none
    → i ≤ k
    → k < i + n
    → holds c k ip ≡ false
unfolding find_known
find_known-none zero i c ip k h a b = absurd (omega arith)
find_known-none (suc n) i c ip k h a b = ground (arith, find_known-none n (i + 1) c ip k)

pub find_free-le :
    (n i : ℕ) (c : ArpCache)
    → (find_free n i c ≤ i + n) × (find_free n i c < i + n → (c.e (find_free n i c)).valid ≡ false)
unfolding find_free
find_free-le zero i c = (omega arith, λ h. absurd (omega arith))
find_free-le (suc n) i c = ground (arith, find_free-le n (i + 1) c)

module _ (c : ArpCache) (k : ℕ) (x : ArpEntry) (q : Mem) where
  -- Of the entries only the new one answers.
  pub lookup_from-set_hit :
      (n i : ℕ)
      → ((j : ℕ) → i ≤ j → j < k → holds c j q ≡ false)
      → x.valid && eq x.ip q 4 ≡ true
      → i ≤ k
      → k < i + n
      → lookup_from n i (set_entry c k x) q ≡ some x.mac
  unfolding lookup_from
  lookup_from-set_hit zero i h m a b = absurd (omega arith)
  lookup_from-set_hit (suc n) i h m a b =
      ground (arith, h i, lookup_from-set_hit n (i + 1) (λ j p. h j (omega arith)))

  -- A change that matters to no lookup of `q`.
  pub lookup_from-set_miss :
      (n i : ℕ)
      → holds c k q ≡ false
      → x.valid && eq x.ip q 4 ≡ false
      → lookup_from n i (set_entry c k x) q ≡ lookup_from n i c q
  unfolding lookup_from
  lookup_from-set_miss zero i h m = refl
  lookup_from-set_miss (suc n) i h m = ground (arith, lookup_from-set_miss n (i + 1))

  -- The entry that answered is overwritten, and no other answers.
  pub lookup_from-set_evict :
      (n i : ℕ)
      → ((j : ℕ) → j < i + n → j ≢ k → holds c j q ≡ false)
      → x.valid && eq x.ip q 4 ≡ false
      → lookup_from n i (set_entry c k x) q ≡ none
  unfolding lookup_from
  lookup_from-set_evict zero i h m = refl
  lookup_from-set_evict (suc n) i h m =
      ground (arith, h i, lookup_from-set_evict n (i + 1) (λ j p. h j (omega arith)))
