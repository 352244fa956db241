-- ===== src/Api/Frames.antt =====
-- The raw frames that src/abi/api.c moves between the driver and its caller's memory.
use mega_net.Base.{
  offset, copy, copy_lem, ltb, if◌then◌else◌, lt→ltb, u8, ℕ, ◌+◌, ◌/◌, ◌^◌, ◌<◌, ◌≡◌, refl, ◌∙◌,
  some, [], ◌∷◌, ◌++◌, arith,
}
use mega_net.Api.Blocks.{dma_copy_in_lem, dma_copy_out_lem, dma_copy_out-inside}
use mega_net.Api.Link.{nif_tx, api_link_tx, nif_rx, hand_frame, api_link_rx}
use mega_net.Api.State.{
  Machine, arg_ptr, blk_ptr, put16_le, set_sys, fetch_blk, put_out, give_blk, fetch_frame,
  buffer_at, buffer_len,
}
use mega_net.Net.State.{Frame}
use mega_net.Tcp.Direct.{Apart}
use mega_net.Wire.Ether.{max_frame}
use mega_net.Xmem.{dma_copy_out}

-- The frame that a caller's block describes.
abbrev pub frame_of : Machine → Frame
frame_of m = record {
  bytes = (fetch_frame (fetch_blk m 5) (buffer_at m) (buffer_len m)).sys.rxf;
  len = buffer_len m;
}

frame_of-bytes :
    (m : Machine) (j : ℕ) → j < buffer_len m → (frame_of m).bytes j ≡ m.sys.pool (buffer_at m + j)
unfolding fetch_frame fetch_blk
frame_of-bytes m j h =
    ground (arith, dma_copy_in_lem m.sys.rxf m.sys.pool (buffer_at m) (buffer_len m) j)

link_tx-sent :
    (m : Machine)
    → (api_link_tx m).sys.nif.sent ≡ (
        if ltb max_frame (buffer_len m)
        then m.sys.nif.sent
        else m.sys.nif.sent ++ (frame_of m ∷ []))
unfolding api_link_tx nif_tx fetch_frame fetch_blk
link_tx-sent m = ground arith

-- What is claimed of a frame that is handed to the driver.
pub api_link_tx-sent :
    (m : Machine) (j : ℕ)
    → j < buffer_len m
    → ((api_link_tx m).sys.nif.sent ≡ (
        if ltb max_frame (buffer_len m)
        then m.sys.nif.sent
        else m.sys.nif.sent ++ (frame_of m ∷ [])))
      × ((frame_of m).bytes j ≡ m.sys.pool (buffer_at m + j))
api_link_tx-sent m j h = (link_tx-sent m, frame_of-bytes m j h)

-- The capacity that the driver is asked for.
abbrev pub frame_cap : Machine → ℕ
frame_cap m = if ltb max_frame (buffer_len m) then max_frame else buffer_len m

-- What is claimed of a frame that came: its bytes in the caller's memory, its length in the block, and
-- the answer.
abbrev pub Hands : Machine → Frame → ℕ → Machine → Type 0
Hands m frame j s =
    (s.sys.pool (buffer_at m + j) ≡ frame.bytes j)
    × (s.sys.pool (arg_ptr m + 5) ≡ u8 frame.len)
    × (s.sys.pool (arg_ptr m + 6) ≡ u8 (frame.len / 2 ^ 8))
    × (s.ra ≡ 1)

hand_frame-byte :
    (m : Machine) (n j : ℕ)
    → Apart (blk_ptr m) n (arg_ptr m + 5) 2
    → j < n
    → (hand_frame (some n) m).sys.pool (blk_ptr m + j) ≡ m.sys.rxf j
unfolding hand_frame give_blk put_out arg_ptr
hand_frame-byte m n j o h =
    let b = offset (put16_le m.blk 5 n) 5 in
    let p = dma_copy_out m.sys.pool (blk_ptr m) m.sys.rxf n in
    ground (
      arith,
      dma_copy_out_lem p b (arg_ptr m + 5) 2 (blk_ptr m + j),
      dma_copy_out-inside m.sys.pool m.sys.rxf (blk_ptr m) n j,
    )

hand_frame-count :
    (m : Machine) (n : ℕ)
    → ((hand_frame (some n) m).sys.pool (arg_ptr m + 5) ≡ u8 n)
      × ((hand_frame (some n) m).sys.pool (arg_ptr m + 6) ≡ u8 (n / 2 ^ 8))
unfolding hand_frame give_blk put_out put16_le arg_ptr
hand_frame-count m n =
    let b = offset (put16_le m.blk 5 n) 5 in
    let p = dma_copy_out m.sys.pool (blk_ptr m) m.sys.rxf n in
    (
      ground (arith, dma_copy_out_lem p b (arg_ptr m + 5) 2 (arg_ptr m + 5)),
      ground (arith, dma_copy_out_lem p b (arg_ptr m + 5) 2 (arg_ptr m + 6)),
    )

-- The machine that a frame has come to.
abbrev came : Machine → Frame → Machine
came m frame =
    let m1 = fetch_blk m 5 in
    set_sys m1 (record m1.sys {
      nif = record m1.sys.nif { polls = m1.sys.nif.polls + 1 };
      rxf = copy m1.sys.rxf frame.bytes frame.len;
    })

link_rx-came :
    (m : Machine) (frame : Frame)
    → m.sys.nif.rx m.sys.nif.polls (frame_cap m) ≡ some frame
    → api_link_rx m ≡ hand_frame (some frame.len) (came m frame)
unfolding api_link_rx nif_rx fetch_blk
link_rx-came m frame e = rw e refl

-- LINK_RX, when the driver delivers a frame for the smaller of the caller's capacity and 1518:
-- the bytes of the frame are in the caller's buffer, which is apart from the block's length
-- field, the field holds its length, and A is 1.
pub api_link_rx-Hands :
    (m : Machine) (frame : Frame) (j : ℕ)
    → m.sys.nif.rx m.sys.nif.polls (frame_cap m) ≡ some frame
    → Apart (buffer_at m) frame.len (arg_ptr m + 5) 2
    → j < frame.len
    → Hands m frame j (api_link_rx m)
unfolding hand_frame fetch_blk arg_ptr blk_ptr
api_link_rx-Hands m frame j e o h =
    let c = hand_frame-count (came m frame) frame.len in
    let bytes = copy_lem m.sys.rxf frame.bytes frame.len j in
    rw (link_rx-came m frame e) (
      hand_frame-byte (came m frame) frame.len j o h ∙ bytes ∙ rw (lt→ltb j frame.len h) refl,
      c.0,
      c.1,
      refl,
    )
