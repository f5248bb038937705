-- ===== src/Can/Mscan/Frames.antt =====
-- A frame in the buffers of the MSCAN, rtcan_mscan.c: `rtcan_mscan_rx_interrupt` reads it and
-- `rtcan_mscan_start_xmit` writes it.
pub mod Buffer
pub mod RoundTrip
use rtdm_native.Prelude.{
  ℕ, zero, suc, ◌+◌, ◌*◌, ◌/◌, ◌%◌, ◌^◌, bit_and, bit_or, if◌then◌else◌, not, List, [], ◌∷◌, take,
}
use rtdm_native.Rtdm.Errno.{Status, ok, err, eio}
use rtdm_native.Can.Types.{CanFrame, Skb, can_eff_flag, can_rtr_flag, empty_rb_frame_size}
use rtdm_native.Can.Receive.{overwrite}
use rtdm_native.Can.Sja1000.Chip.{has}
use rtdm_native.Can.Sja1000.Frames.{data_size}
use rtdm_native.Can.Mscan.Chip.{
  Mscan, get_reg, put_reg, command, or_reg, clear_reg, data_reg, canrxfg, cantxfg, cantflg, cantier,
  cantbsel, dlr, tbpr,
}

-- `for (i = 0; i < size; i++) frame->data[i] = regs->canrxfg.dsr[i + (i / 2) * 2];`
unfoldable pub read_dsr : Mscan → ℕ → ℕ → List ℕ
unfolding get_reg
read_dsr s i zero = []
read_dsr s i (suc n) = get_reg s (data_reg canrxfg i) ∷ read_dsr s (i + 1) n

-- `for (i = 0; i < size; i++) regs->cantxfg.dsr[i + (i / 2) * 2] = frame->data[i];`
unfoldable pub write_dsr : ℕ → List ℕ → Mscan → Mscan
unfolding put_reg
write_dsr i [] s = s
write_dsr i (b ∷ bs) s = write_dsr (i + 1) bs (put_reg (data_reg cantxfg i) b s)

-- The CAN ID without the RTR flag, in the extended or the standard layout of the ID registers.
unfoldable pub id_from_buffer : Mscan → ℕ
unfolding get_reg
id_from_buffer s =
    if has (get_reg s (canrxfg + 1)) 0x08
    then bit_or
        (bit_or
          (bit_or
            (bit_or
              (bit_or (get_reg s (canrxfg + 0) * 2 ^ 21)
                (bit_and (get_reg s (canrxfg + 1)) 0xE0 * 2 ^ 13))
              (bit_and (get_reg s (canrxfg + 1)) 0x07 * 2 ^ 15))
            (get_reg s (canrxfg + 4) * 2 ^ 7))
          (get_reg s (canrxfg + 5) / 2 ^ 1))
        can_eff_flag
    else bit_or (get_reg s (canrxfg + 0) * 2 ^ 3) (get_reg s (canrxfg + 1) / 2 ^ 5)

-- `rtcan_mscan_rx_interrupt`: the received frame in `skb`, whose bytes are overwritten.
unfoldable pub rtcan_mscan_rx_interrupt : Mscan → Skb → Skb
rtcan_mscan_rx_interrupt s skb =
    let can_dlc = bit_and (get_reg s (canrxfg + dlr)) 0x0F in
    let size = data_size can_dlc in
    let id = id_from_buffer s in
    let rtr =
      if has (get_reg s (canrxfg + 1)) 0x08
      then has (get_reg s (canrxfg + 5)) 0x01
      else has (get_reg s (canrxfg + 1)) 0x10 in
    let f = skb.rb_frame in
    record {
      rb_frame_size = if rtr then empty_rb_frame_size else empty_rb_frame_size + size;
      rb_frame = record {
        can_id = if rtr then bit_or id can_rtr_flag else id;
        can_ifindex = s.dev.ifindex;
        can_dlc = can_dlc;
        area = if rtr then f.area else overwrite 0 (read_dsr s 0 size) f.area;
      };
    }

-- The ID registers, before the RTR bit.
unfoldable pub id_to_buffer : ℕ → Mscan → Mscan
unfolding put_reg get_reg
id_to_buffer id s =
    if has id can_eff_flag
    then put_reg (cantxfg + 5) (bit_and id 0x0000007F * 2 ^ 1) (
        put_reg (cantxfg + 4) (bit_and id 0x00007F80 / 2 ^ 7) (
          or_reg (cantxfg + 1) 0x18 (
            or_reg (cantxfg + 1) (bit_and id 0x00038000 / 2 ^ 15) (
              put_reg (cantxfg + 1) (bit_and id 0x001C0000 / 2 ^ 13)
                (put_reg (cantxfg + 0) (bit_and id 0x1FE00000 / 2 ^ 21) s)))))
    else put_reg (cantxfg + 1) (bit_and id 0x00000007 * 2 ^ 5)
        (put_reg (cantxfg + 0) (bit_and id 0x000007F8 / 2 ^ 3) s)

-- The register and the bit of the RTR flag.
abbrev pub rtr_reg : ℕ → ℕ
rtr_reg id = if has id can_eff_flag then cantxfg + 5 else cantxfg + 1

abbrev pub rtr_bit : ℕ → ℕ
rtr_bit id = if has id can_eff_flag then 0x01 else 0x10

-- `rtcan_mscan_start_xmit`; `tflg` is what CANTFLG answers.
unfoldable pub rtcan_mscan_start_xmit : ℕ → CanFrame → Mscan → Status × Mscan
unfolding write_dsr put_reg get_reg command
rtcan_mscan_start_xmit tflg frame s =
    let id = frame.can_id in
    let s₁ = id_to_buffer id (put_reg cantbsel 1 s) in
    let s₂ =
      if has id can_rtr_flag
      then or_reg (rtr_reg id) (rtr_bit id) s₁
      else write_dsr 0 (take (data_size frame.can_dlc) frame.payload)
          (clear_reg (rtr_reg id) (rtr_bit id) s₁) in
    let s₃ = put_reg (cantxfg + tbpr) 0 (put_reg (cantxfg + dlr) frame.can_dlc s₂) in
    if not (has tflg 1) then (err eio, s) else (ok tt, or_reg cantier 1 (command cantflg 1 s₃))
