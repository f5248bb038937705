-- ===== src/Can/Sja1000/Frames.antt =====
-- A frame in the registers of the SJA1000, rtcan_sja1000.c: `rtcan_sja_rx_interrupt` reads it and
-- `rtcan_sja_start_xmit` writes it.
pub mod Fields
pub mod RoundTrip
use rtdm_native.Prelude.{
  ℕ, zero, suc, ◌+◌, ◌*◌, ◌/◌, ◌%◌, ◌^◌, bit_and, bit_or, ltb, if◌then◌else◌, List, [], ◌∷◌, take,
}
use rtdm_native.Rtdm.Errno.{Status, ok}
use rtdm_native.Can.Types.{CanFrame, Skb, can_eff_flag, can_rtr_flag, empty_rb_frame_size}
use rtdm_native.Can.Receive.{overwrite}
use rtdm_native.Can.Sja1000.Chip.{
  Sja, RegisterFile, read_reg, write_reg, has, sja_cmr, sja_fir, sja_id1, sja_id2, sja_id3, sja_id4,
  sja_data_sff, sja_data_eff,
}

-- `for (i = 0; i < size; i++) frame->data[i] = chip->read_reg(dev, base + i);`
unfoldable pub read_data : RegisterFile → ℕ → ℕ → List ℕ
unfolding read_reg
read_data regs base zero = []
read_data regs base (suc n) = read_reg regs base ∷ read_data regs (base + 1) n

-- `for (i = 0; i < size; i++) chip->write_reg(dev, base + i, frame->data[i]);`
unfoldable pub write_data : ℕ → List ℕ → Sja → Sja
unfolding write_reg
write_data base [] s = s
write_data base (b ∷ bs) s = write_data (base + 1) bs (write_reg base b s)

-- `(n > 8) ? 8 : n`
abbrev pub data_size : ℕ → ℕ
data_size n = if ltb 8 n then 8 else n

-- The CAN ID without the RTR flag, from the ID registers.
unfoldable pub read_id : RegisterFile → ℕ → ℕ
unfolding read_reg
read_id regs fir =
    if has fir 0x80
    then bit_or
        (bit_or
          (bit_or (bit_or can_eff_flag (read_reg regs sja_id1 * 2 ^ 21))
            (read_reg regs sja_id2 * 2 ^ 13))
          (read_reg regs sja_id3 * 2 ^ 5))
        (read_reg regs sja_id4 / 2 ^ 3)
    else bit_or (read_reg regs sja_id1 * 2 ^ 3) (read_reg regs sja_id2 / 2 ^ 5)

-- `rtcan_sja_rx_interrupt`: the received frame in `skb`, whose bytes are overwritten.
unfoldable pub rtcan_sja_rx_interrupt : RegisterFile → Sja → Skb → Sja × Skb
rtcan_sja_rx_interrupt regs s skb =
    let fir = read_reg regs sja_fir in
    let can_dlc = bit_and fir 0x0F in
    let size = data_size can_dlc in
    let f = skb.rb_frame in
    let can_id = read_id regs fir in
    let base : ℕ = if has fir 0x80 then sja_data_eff else sja_data_sff in
    (
      write_reg sja_cmr 0x04 s,
      record {
        rb_frame_size = if has fir 0x40 then empty_rb_frame_size else empty_rb_frame_size + size;
        rb_frame = record {
          can_id = if has fir 0x40 then bit_or can_id can_rtr_flag else can_id;
          can_ifindex = s.dev.ifindex;
          can_dlc = can_dlc;
          area = if has fir 0x40 then f.area else overwrite 0 (read_data regs base size) f.area;
        };
      },
    )

-- The writes of the ID registers. A `u32` that is shifted to the left loses its upper bits.
unfoldable pub write_id : ℕ → Sja → Sja
unfolding write_reg
write_id can_id s =
    if has can_id can_eff_flag
    then write_reg sja_id4 (can_id * 2 ^ 3 % 2 ^ 32) (
        write_reg sja_id3 (can_id / 2 ^ 5)
          (write_reg sja_id2 (can_id / 2 ^ 13) (write_reg sja_id1 (can_id / 2 ^ 21) s)))
    else write_reg sja_id2 (can_id * 2 ^ 5 % 2 ^ 32) (write_reg sja_id1 (can_id / 2 ^ 3) s)

-- `rtcan_sja_start_xmit`, which ends with the command register.
unfoldable pub rtcan_sja_start_xmit : CanFrame → Sja → Status × Sja
unfolding write_data write_id write_reg
rtcan_sja_start_xmit frame s =
    let size = data_size frame.can_dlc in
    let rtr = has frame.can_id can_rtr_flag in
    let base : ℕ = if has frame.can_id can_eff_flag then sja_data_eff else sja_data_sff in
    let fir : ℕ =
      if has frame.can_id can_eff_flag then bit_or frame.can_dlc 0x80 else frame.can_dlc in
    let s₁ = write_id frame.can_id s in
    let s₂ = if rtr then s₁ else write_data base (take size frame.payload) s₁ in
    let s₃ = write_reg sja_fir (if rtr then bit_or fir 0x40 else fir) s₂ in
    let command : ℕ = if has s.dev.ctrl_mode 2 then 0x10 else 0x01 in
    (ok tt, write_reg sja_cmr command s₃)
