-- ===== src/Hal/Dma.antt =====
-- src/hal/mn_dma.c: the job of an enhanced DMA copy, and the registers that start it.
use mega_net.Base.{get_or, u8, ℕ, ◌+◌, ◌*◌, ◌/◌, ◌^◌, bit_and, ◌≡◌, List, [], ◌∷◌}
use mega_net.Hal.Bus.{Op, store, Bus, peek_reg, poke_reg}

-- The bytes of `job`; it has no statics that outlive a call.
unfoldable pub dma_job : ℕ → ℕ → ℕ → List ℕ
dma_job src dst count =
    0x80
    ∷ u8 (src / 2 ^ 20)
    ∷ 0x81
    ∷ u8 (dst / 2 ^ 20)
    ∷ 0x00
    ∷ 0x00
    ∷ u8 (bit_and count 0xff)
    ∷ u8 (count / 2 ^ 8)
    ∷ u8 (bit_and src 0xff)
    ∷ u8 (bit_and (src / 2 ^ 8) 0xff)
    ∷ u8 (bit_and (src / 2 ^ 16) 0x0f)
    ∷ u8 (bit_and dst 0xff)
    ∷ u8 (bit_and (dst / 2 ^ 8) 0xff)
    ∷ u8 (bit_and (dst / 2 ^ 16) 0x0f)
    ∷ 0x00
    ∷ 0x00
    ∷ 0x00
    ∷ []

-- `mn_dma_copy`: the job that is written at `list`, in the memory from `base` on, and the registers.
unfoldable pub dma_copy : Bus → ℕ → ℕ → ℕ → ℕ → ℕ → Bus × List ℕ
dma_copy b base list src dst count =
    let (b1, save_msb) = peek_reg b 0xD701 in
    let (b2, save_bank) = peek_reg b1 0xD702 in
    let (b3, save_mb) = peek_reg b2 0xD704 in
    let b4 = poke_reg (poke_reg b3 0xD702 (base / 2 ^ 16)) 0xD704 (base / 2 ^ 20) in
    let b5 = poke_reg (poke_reg b4 0xD701 (list / 2 ^ 8)) 0xD705 (bit_and list 0xff) in
    let b6 = poke_reg (poke_reg b5 0xD702 save_bank) 0xD704 save_mb in
    (poke_reg b6 0xD701 save_msb, dma_job src dst count)

-- The fields of a job as the controller's F018B form has them: an address is a megabyte byte, a bank
-- of four bits and two bytes.
abbrev pub job_at : List ℕ → ℕ → ℕ
job_at job k = get_or job k 0

abbrev pub job_address : List ℕ → ℕ → ℕ → ℕ
job_address job mb low =
    job_at job mb * 2 ^ 20
    + job_at job (low + 2) * 2 ^ 16
    + job_at job (low + 1) * 2 ^ 8
    + job_at job low

abbrev pub Encodes : List ℕ → ℕ → ℕ → ℕ → Type 0
Encodes job src dst count =
    (job_address job 1 8 ≡ src)
    × (job_address job 3 11 ≡ dst)
    × (job_at job 7 * 2 ^ 8 + job_at job 6 ≡ count)
    × (job_at job 5 ≡ 0)

-- What the call stores: the list's address, the last byte of which starts the job, and then what the
-- three registers held.
abbrev pub starting : ℕ → ℕ → List Op
starting base list =
    store 0xD702 (u8 (base / 2 ^ 16))
    ∷ store 0xD704 (u8 (base / 2 ^ 20))
    ∷ store 0xD701 (u8 (list / 2 ^ 8))
    ∷ store 0xD705 (u8 (bit_and list 0xff))
    ∷ []

abbrev pub restoring : Bus → List Op
restoring b =
    store 0xD702 (u8 (b.read (b.reads + 1) 0xD702))
    ∷ store 0xD704 (u8 (b.read (b.reads + 1 + 1) 0xD704))
    ∷ store 0xD701 (u8 (b.read b.reads 0xD701))
    ∷ []
