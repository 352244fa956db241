-- ===== src/Dns/Message/Laws.antt =====
-- Replies to the resolver, src/net/mn_dns.c: where an answer lies.
use mega_net.Base.{
  Mem, offset, Option-cases, u16, ℕ, zero, suc, ◌+◌, ◌^◌, ◌≤◌, ◌<◌, ◌≡◌, inl, inr, some, arith,
}
use mega_net.Dns.Message.{dns_hdr_len, skip_name, questions_from, answers_from, answer, dns_parse}
use mega_net.Wire.Byteorder.{get16}

pub answers_from-inside :
    (an : ℕ) (m : Mem) (o len p : ℕ)
    → len + 4 < 2 ^ 16
    → answers_from an m o len ≡ some p
    → p + 4 ≤ len
unfolding answers_from
answers_from-inside zero m o len p b e = ground arith
answers_from-inside (suc an) m o len p b e =
    let o' = skip_name len m o len in
    ground
      (arith, answers_from-inside an m (u16 (u16 (o' + 10) + get16 (offset m (o' + 8)))) len p b)

-- The address that a reply of less than 65532 bytes is said to hold lies inside the reply.
pub dns_parse-inside :
    (id : ℕ) (m : Mem) (len p : ℕ) → len + 4 < 2 ^ 16 → dns_parse id m len ≡ answer p → p + 4 ≤ len
unfolding dns_parse
dns_parse-inside id m len p b e =
    elim (Option-cases (questions_from (get16 (offset m 4)) m dns_hdr_len len)) [
      | inl q ↦ ground (arith, q)
      | inr (o, q) ↦ ground (arith, q, answers_from-inside (get16 (offset m 6)) m o len p b)
    ]
