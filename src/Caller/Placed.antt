-- ===== src/Caller/Placed.antt =====
-- The block of a send of src/abi/meganet.h, as it is staged and as the call reads it.
-- Where the caller's block, of `size` bytes at `p`, and its buffer are: in its own 64 KB, apart from each
-- other and from the mailbox of the trampoline.
use mega_net.Base.{u8, ℕ, ◌+◌, ◌/◌, ◌^◌, ◌≤◌, ◌<◌, bit_and, ◌≡◌, refl, sym, ap, ◌∙◌, ◌⊎◌, arith}
use mega_net.Api.Blocks.{fetch_blk-inside}
use mega_net.Api.State.{Machine, arg_ptr, blk_ptr, fetch_blk, buffer_at, buffer_len}
use mega_net.Caller.Calls.{word_bytes, ptr28-word, u8-low, ptr28-low}
use mega_net.Caller.Services.{buffer_blk}
use mega_net.Caller.Staging.{meganet_tr, load, stage_call, meganet_ptr28}
use mega_net.Tcp.Direct.{Apart}

pub record IsPlaced (p size buf len : ℕ) : Type 0 where
  pub block : p + size ≤ 2 ^ 16
  pub block_mailbox : Apart p size meganet_tr 10
  pub words : (buf < 2 ^ 16) × (len < 2 ^ 16)
  pub buffer : buf + len ≤ 2 ^ 16
  pub buffer_mailbox : Apart buf len meganet_tr 10
  pub buffer_block : Apart buf len p size

-- The machine that the jump is made in.
abbrev pub at_send : ℕ → ℕ → ℕ → ℕ → Machine → Machine
at_send p s buf len m =
    let m1 = stage_call 0x2048 (u8 p) (u8 (p / 2 ^ 8)) 0 s (buffer_blk p buf len m) in
    record m1 { a = u8 p; x = u8 (p / 2 ^ 8); y = 0; z = s }

-- Memory but for the block and the mailbox is what it was.
pub at_send-elsewhere :
    (p s buf len : ℕ) (m : Machine) (a : ℕ)
    → (a < p) ⊎ (p + 5 ≤ a)
    → (a < meganet_tr) ⊎ (meganet_tr + 10 ≤ a)
    → load (at_send p s buf len m) a ≡ load m a
unfolding stage_call buffer_blk meganet_ptr28
at_send-elsewhere p s buf len m a h k = ground arith

-- The block as the call fetches it.
pub at_send-block :
    (p s buf len : ℕ) (m : Machine)
    → Apart p 5 meganet_tr 10
    → let q = at_send p s buf len m in
      (load q p ≡ u8 (bit_and buf 0xff))
      × (load q (p + 1) ≡ u8 (buf / 2 ^ 8))
      × (load q (p + 2) ≡ 0)
      × (load q (p + 3) ≡ u8 len)
      × (load q (p + 3 + 1) ≡ u8 (len / 2 ^ 8))
unfolding stage_call buffer_blk meganet_ptr28
at_send-block p s buf len m h =
    (ground arith, ground arith, ground arith, ground arith, ground arith)

pub at_send-arg_ptr :
    (p s buf len : ℕ) (m : Machine) → p < 2 ^ 16 → arg_ptr (at_send p s buf len m) ≡ p
unfolding arg_ptr
at_send-arg_ptr p s buf len m h = ptr28-word p h

fetched :
    (p s buf len : ℕ) (m : Machine) (j a : ℕ)
    → p < 2 ^ 16
    → j < 5
    → p + j ≡ a
    → (fetch_blk (at_send p s buf len m) 5).blk j ≡ load (at_send p s buf len m) a
fetched p s buf len m j a h l e =
    fetch_blk-inside (at_send p s buf len m) 5 j l
    ∙ ap (λ (a : ℕ). load (at_send p s buf len m) (a + j)) (at_send-arg_ptr p s buf len m h)
    ∙ ap (λ (a : ℕ). load (at_send p s buf len m) a) e

-- The call reads the buffer and the length that the wrapper was given.
pub at_send-buffer :
    (p s buf len : ℕ) (m : Machine)
    → IsPlaced p 5 buf len
    → (buffer_at (at_send p s buf len m) ≡ buf) × (buffer_len (at_send p s buf len m) ≡ len)
unfolding blk_ptr
at_send-buffer p s buf len m i =
    let b = at_send-block p s buf len m i.block_mailbox in
    let f = λ (j a : ℕ) (h : j < 5) (e : p + j ≡ a).
      fetched p s buf len m j a (omega (arith, i.block)) h e in
    (
      rw
          (
            f 0 p (omega arith) (omega arith) ∙ b.0,
            f 1 (p + 1) (omega arith) refl ∙ b.1,
            f 2 (p + 2) (omega arith) refl ∙ b.2,
          )
          (ptr28-low buf i.words.0),
      word_bytes (fetch_blk (at_send p s buf len m) 5).blk 3 len i.words.1
          (f 3 (p + 3) (omega arith) refl ∙ b.3 ∙ sym (u8-low len))
          (f 4 (p + 3 + 1) (omega arith) (omega arith) ∙ b.4),
    )
