-- ===== src/Can/Ring.antt =====
-- The ring buffer of a socket, as rtcan_raw.c uses it: the copies of `rtcan_rcv_deliver` into it and
-- the macro MEMCPY_FROM_RING_BUF out of it.
pub mod Window
pub mod Frame
use rtdm_native.Prelude.{
  ℕ, zero, suc, ◌+◌, ◌-◌, ◌*◌, ◌/◌, ◌%◌, ◌^◌, bit_and, bit_or, Bool, ltb, leb, if◌then◌else◌, List,
  [], ◌∷◌, ◌++◌, take, drop, length,
}
use rtdm_native.Memory.{memcpy_to, memcpy_from}
use rtdm_native.Can.Types.{
  Config, rtcan_rxbuf_size, RbFrame, Skb, Socket, inc32, rtcan_timestamp_size, rtcan_has_timestamp,
  rtcan_has_no_timestamp,
}
use rtdm_native.Rtdm.Sem.{sem_up}

-- The bytes of a `uint32_t` in memory, lowest first, and back.
unfoldable pub bytes_u32 : ℕ → List ℕ
bytes_u32 x = x % 256 ∷ (x / 256 % 256) ∷ (x / 65536 % 256) ∷ (x / 16777216 % 256) ∷ []

unfoldable pub u32_of_bytes : List ℕ → ℕ
u32_of_bytes [] = 0
u32_of_bytes (b ∷ bs) = b + 256 * u32_of_bytes bs

-- The packed `struct rtcan_rb_frame` in memory.
unfoldable pub rb_frame_bytes : RbFrame → List ℕ
rb_frame_bytes f = bytes_u32 f.can_id ++ (f.can_ifindex ∷ f.can_dlc ∷ f.area)

-- The size to copy and the frame with its mark: does the socket want a timestamp behind the data?
unfoldable pub mark_timestamp : Bool → Skb → ℕ × Skb
mark_timestamp wanted skb =
    let f = skb.rb_frame in
    if wanted
    then (
      skb.rb_frame_size + rtcan_timestamp_size,
      record skb { rb_frame = record f { can_dlc = bit_or f.can_dlc rtcan_has_timestamp } },
    )
    else (
      skb.rb_frame_size,
      record skb { rb_frame = record f { can_dlc = bit_and f.can_dlc rtcan_has_no_timestamp } },
    )

module _ (c : Config) where
  -- `i & (RTCAN_RXBUF_SIZE - 1)`
  unfoldable pub wrap_index : ℕ → ℕ
  wrap_index i = bit_and i (rtcan_rxbuf_size c - 1)

  -- The free bytes: `recv_head - recv_tail` as an int, which goes round at 0 and below.
  unfoldable pub size_free : Socket → ℕ
  size_free s =
      if leb s.recv_head s.recv_tail
      then s.recv_head + rtcan_rxbuf_size c - s.recv_tail
      else s.recv_head - s.recv_tail

  -- The copy in one or two parts.
  unfoldable pub copy_in : (ℕ → ℕ) → ℕ → List ℕ → ℕ → ℕ
  copy_in buf tail bytes =
      let first_part_size = rtcan_rxbuf_size c - tail in
      if ltb (rtcan_rxbuf_size c) (tail + length bytes)
      then memcpy_to (memcpy_to buf tail (take first_part_size bytes)) 0
          (drop first_part_size bytes)
      else memcpy_to buf tail bytes

  -- The part of `rtcan_rcv_deliver` behind the mark: `cpy_size` bytes of the frame go into the ring.
  unfoldable pub put_frame : Socket → ℕ → RbFrame → Socket
  put_frame s cpy_size frame =
      if ltb cpy_size (size_free s)
      then record s {
        recv_buf = copy_in s.recv_buf s.recv_tail (take cpy_size (rb_frame_bytes frame));
        recv_tail = wrap_index (s.recv_tail + cpy_size);
        recv_sem = sem_up s.recv_sem;
      }
      else record s { rx_buf_full = inc32 s.rx_buf_full }

  -- `rtcan_rcv_deliver`: the mark in the frame stays for the next listener.
  unfoldable pub rtcan_rcv_deliver : Socket → Skb → Socket × Skb
  rtcan_rcv_deliver s skb =
      let (cpy_size, skb') = mark_timestamp s.get_timestamp skb in
      (put_frame s cpy_size skb'.rb_frame, skb')

  -- MEMCPY_FROM_RING_BUF: the bytes and the index behind them.
  unfoldable pub memcpy_from_ring_buf : (ℕ → ℕ) → ℕ → ℕ → List ℕ × ℕ
  memcpy_from_ring_buf recv_buf index len =
      let first_part_size = rtcan_rxbuf_size c - index in
      (
        if ltb (rtcan_rxbuf_size c) (index + len)
            then memcpy_from recv_buf index first_part_size
              ++ memcpy_from recv_buf 0 (len - first_part_size)
            else memcpy_from recv_buf index len,
        wrap_index (index + len),
      )
