-- ===== src/Dns/Message.antt =====
-- The messages of src/net/mn_dns.c: building a query, and reading an answer.
pub mod Laws
use mega_net.Base.{
  Mem, poke, offset, write_at, ltb, leb, ◌==◌, if◌then◌else◌, u8, u16, ℕ, zero, suc, ◌+◌, bit_and,
  not, ◌&&◌, ◌||◌, Option, none, some,
}
use mega_net.Wire.Byteorder.{get16, put16}

abbrev pub dns_hdr_len : ℕ
dns_hdr_len = 12

abbrev pub dns_name_max : ℕ
dns_name_max = 63

-- The fixed header of a query.
unfoldable pub query_header : Mem → ℕ → Mem
query_header msg id =
    let m1 = write_at msg 0 (λ m. put16 m id) in
    let m2 = write_at m1 2 (λ m. put16 m 0x0100) in
    let m3 = write_at m2 4 (λ m. put16 m 1) in
    let m4 = write_at m3 6 (λ m. put16 m 0) in
    let m5 = write_at m4 8 (λ m. put16 m 0) in write_at m5 10 (λ m. put16 m 0)

-- What follows the name: the last label's length, the root, the type and the class.
unfoldable pub query_end : Mem → ℕ → ℕ → ℕ → Mem × ℕ
query_end msg o lenpos n =
    if n == 0
    then (msg, 0)
    else (let m1 = poke (poke msg lenpos n) o 0 in
        let m2 = write_at m1 (o + 1) (λ m. put16 m 1) in
        (write_at m2 (o + 3) (λ m. put16 m 1), o + 5))

-- The loop over the name at `i`, with the write position `o`, the position of the current label's
-- length and its length so far. The name ends within `dns_name_max` bytes, which bounds the rounds.
unfoldable pub labels_from : ℕ → ℕ → Mem → Mem → ℕ → ℕ → ℕ → Mem × ℕ
labels_from zero i name msg o lenpos n = query_end msg o lenpos n
labels_from (suc f) i name msg o lenpos n =
    let c = name i in
    let next_label = labels_from f (i + 1) name (poke msg lenpos n) (o + 1) o 0 in
    let next_byte = labels_from f (i + 1) name (poke msg o (u8 c)) (o + 1) lenpos (n + 1) in
    if c == 0
    then query_end msg o lenpos n
    else if c == b'.'
    then (if n == 0 then (msg, 0) else next_label)
    else (if ltb 63 (n + 1) then (poke msg o (u8 c), 0) else next_byte)

-- `build`: the message and its length, 0 if the name is malformed.
unfoldable pub dns_build : Mem → ℕ → Mem → Mem × ℕ
dns_build msg id name =
    labels_from dns_name_max 0 name (query_header msg id) (dns_hdr_len + 1) dns_hdr_len 0

-- `skip_name` at `o`, on fuel: each round moves on by a byte at least. 0 if it runs off the end.
unfoldable pub skip_name : ℕ → Mem → ℕ → ℕ → ℕ
skip_name zero m o len = 0
skip_name (suc f) m o len =
    let n = m o in
    let rest = skip_name f m (u16 (o + 1 + n)) len in
    if not (ltb o len)
    then 0
    else if n == 0
    then u16 (o + 1)
    else if bit_and n 0xc0 == 0xc0
    then (if leb (o + 2) len then u16 (o + 2) else 0)
    else rest

-- The loop over the questions, with `qd` left: where the answers begin, `none` for a malformed one.
unfoldable pub questions_from : ℕ → Mem → ℕ → ℕ → Option ℕ
questions_from zero m o len = some o
questions_from (suc qd) m o len =
    let o' = skip_name len m o len in
    let rest = questions_from qd m (u16 (o' + 4)) len in
    if o' == 0 || ltb len (u16 (o' + 4)) then none else rest

-- The loop over the answers, with `an` left: the offset of the first A record's address.
unfoldable pub answers_from : ℕ → Mem → ℕ → ℕ → Option ℕ
answers_from zero m o len = none
answers_from (suc an) m o len =
    let o' = skip_name len m o len in
    let p = u16 (o' + 10) in
    let rdlen = get16 (offset m (o' + 8)) in
    let rest = answers_from an m (u16 (p + rdlen)) len in
    if o' == 0 || ltb len p
    then none
    else if ltb len (u16 (p + rdlen))
    then none
    else if get16 (offset m o') == 1 && get16 (offset m (o' + 2)) == 1 && rdlen == 4
    then some p
    else rest

-- What `parse` makes of a message.
pub data Parsed : Type 0 where
  ignored refused : Parsed
  answer : ℕ → Parsed

unfoldable pub dns_parse : ℕ → Mem → ℕ → Parsed
dns_parse id m len =
    if ltb len dns_hdr_len || not (get16 m == id)
    then ignored
    else if bit_and (get16 (offset m 2)) 0x8000 == 0
    then ignored
    else if not (bit_and (get16 (offset m 2)) 0x000f == 0)
    then refused
    else elim (questions_from (get16 (offset m 4)) m dns_hdr_len len) [
      | none ↦ ignored
      | some o ↦ elim (answers_from (get16 (offset m 6)) m o len) [
        | none ↦ ignored
        | some p ↦ answer p
      ]
    ]
