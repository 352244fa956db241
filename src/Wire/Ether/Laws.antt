-- ===== src/Wire/Ether/Laws.antt =====
-- Building and reading Ethernet headers, src/net/mn_ether.c.
use mega_net.Base.{
  Mem, IsBytes, offset, write_at, copy, eq, copy_lem, copy-IsBytes, eq_congr, write_at-IsBytes, ℕ,
  ◌+◌, ◌-◌, ◌/◌, ◌%◌, ◌^◌, ◌<◌, bit_and, ◌≡◌, refl, ◌∙◌, fun_ext, true, arith,
}
use mega_net.Wire.Byteorder.{put16}
use mega_net.Wire.Byteorder.Laws.{word_lem}
use mega_net.Wire.Checksum.Field.{patch-IsBytes}
use mega_net.Wire.Ether.{
  addr_eq, addr_copy, ether_build, ether_type, ether_dst, ether_src, ether_is_for_us,
}

module _ (buf dst src : Mem) (t : ℕ) where
  pub ether_build-IsBytes :
      IsBytes buf → IsBytes dst → IsBytes src → IsBytes (ether_build buf dst src t).0
  unfolding ether_build addr_copy
  ether_build-IsBytes h hd hs =
      let k1 =
        write_at-IsBytes buf 0 (λ m. copy m dst 6) h
          (copy-IsBytes (offset buf 0) dst 6 (λ i. h (0 + i)) hd) in
      let k2 =
        write_at-IsBytes _ 6 (λ m. copy m src 6) k1 (copy-IsBytes _ src 6 (λ i. k1 (6 + i)) hs) in
      patch-IsBytes _ 12 t k2

  pub ether_build-rest : offset (ether_build buf dst src t).0 14 ≡ offset buf 14
  unfolding ether_build addr_copy put16
  ether_build-rest = fun_ext λ i. ground (
    arith,
    copy_lem (offset buf 0) dst 6 (14 + i),
    copy_lem (offset (write_at buf 0 (λ m. copy m dst 6)) 6) src 6 (14 + i - 6),
  )

  -- A frame that begins with a built header, of a 16-bit type, has its type and addresses, and is
  -- taken by the station that it is addressed to.
  pub ether_type-build :
      t < 2 ^ 16
      → (f : Mem) → ((i : ℕ) → i < 14 → f i ≡ (ether_build buf dst src t).0 i)
      → (ether_type f ≡ t)
        × (eq (ether_dst f) dst 6 ≡ true)
        × (eq (ether_src f) src 6 ≡ true)
        × (ether_is_for_us f dst ≡ true)
  ether_type-build b f same = (
    (unfold ether_type in
        word_lem (offset f 12) t b (same 12 (omega arith) ∙ high) (same 13 (omega arith) ∙ low)),
    to_dst dst ∙ built_dst,
    eq_congr (ether_src f) (ether_src built) src 6 (λ i k. same (6 + i) (omega arith)) ∙ built_src,
    (unfold ether_is_for_us addr_eq in rw (to_dst dst, built_dst)),
  )
    where
      built : Mem
      built = (ether_build buf dst src t).0

      high : built 12 ≡ t / 2 ^ 8 % 2 ^ 8
      high = unfold ether_build addr_copy copy put16 in refl

      low : built 13 ≡ bit_and t 0xff % 2 ^ 8
      low = unfold ether_build addr_copy copy put16 in refl

      to_dst : (a : Mem) → eq (ether_dst f) a 6 ≡ eq (ether_dst built) a 6
      to_dst a = eq_congr (ether_dst f) (ether_dst built) a 6 (λ i k. same (0 + i) (omega arith))

      built_dst : eq (ether_dst built) dst 6 ≡ true
      built_dst = unfold ether_build addr_copy copy put16 eq in ground arith

      built_src : eq (ether_src built) src 6 ≡ true
      built_src = unfold ether_build addr_copy copy put16 eq in ground arith
