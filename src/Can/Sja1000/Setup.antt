-- ===== src/Can/Sja1000/Setup.antt =====
-- The settings of the SJA1000 and its registration, rtcan_sja1000.c. The interrupt line's request and
-- the table of devices are what the driver calls; printing and the entry under /proc are left out.
pub mod Rate
use rtdm_native.Prelude.{
  ℕ, ◌+◌, ◌-◌, ◌*◌, ◌%◌, ◌^◌, bit_and, bit_or, ltb, ◌==◌, if◌then◌else◌, Bool, true, false, not,
  List, Option, none, some,
}
use rtdm_native.Prelude.Int.{ℤ, pos, ltb_ℤ}
use rtdm_native.Rtdm.Errno.{Status, ok, err, einval, enodev}
use rtdm_native.Can.Types.{Config, CanState, Device, Bittime, BittimeStd}
use rtdm_native.Can.Dev.{Devices, rtcan_dev_register, rtcan_dev_unregister}
use rtdm_native.Can.Sja1000.Chip.{
  Sja, RegisterFile, read_reg, write_reg, sja_sr, sja_btr0, sja_btr1, sja_ocr, sja_amr0, sja_cdr,
}
use rtdm_native.Can.Sja1000.Modes.{set_state, rtcan_sja_mode_stop}

-- `x - 1`, with the bits of a negative result, and `x << k`.
abbrev pub dec_bits : ℕ → ℕ
dec_bits x = (x + (2 ^ 32 - 1)) % 2 ^ 32

abbrev pub shift_left : ℕ → ℕ → ℕ
shift_left x k = x * 2 ^ k % 2 ^ 32

-- `BTR0_SET_BRP(brp) | BTR0_SET_SJW(sjw)`
unfoldable pub btr0_of : BittimeStd → ℕ
btr0_of t = bit_or (bit_and (dec_bits t.brp) 0x3F) (bit_and (shift_left (dec_bits t.sjw) 6) 0xC0)

-- `BTR1_SET_TSEG1(prop_seg + phase_seg1) | BTR1_SET_TSEG2(phase_seg2) | BTR1_SET_SAM(sam)`
unfoldable pub btr1_of : BittimeStd → ℕ
btr1_of t =
    bit_or
      (bit_or (bit_and (dec_bits (t.prop_seg + t.phase_seg1)) 0x0F)
        (bit_and (shift_left (dec_bits t.phase_seg2) 4) 0x70))
      (shift_left (bit_and t.sam 1) 7)

-- `rtcan_sja_set_bit_time`; the type of a bit time is one of the two.
unfoldable pub rtcan_sja_set_bit_time : Bittime → Sja → Status × Sja
unfolding write_reg
rtcan_sja_set_bit_time (Bittime.btr a b) s = (ok tt, write_reg sja_btr1 b (write_reg sja_btr0 a s))
rtcan_sja_set_bit_time (Bittime.std t) s =
    (ok tt, write_reg sja_btr1 (btr1_of t) (write_reg sja_btr0 (btr0_of t) s))

-- `rtcan_sja_enable_bus_err`: one bus error is reported.
unfoldable pub rtcan_sja_enable_bus_err : Sja → Sja
rtcan_sja_enable_bus_err s =
    if ltb_ℤ s.bus_err_on (pos 2) then record s { bus_err_on = pos 2 } else s

-- `sja1000_chip_config`: the clock, the output, and an acceptance mask that takes every frame.
unfoldable pub sja1000_chip_config : Sja → Sja
unfolding write_reg
sja1000_chip_config s = write_reg (sja_amr0 + 3) 0xFF (
    write_reg (sja_amr0 + 2) 0xFF (
      write_reg (sja_amr0 + 1) 0xFF
        (write_reg sja_amr0 0xFF (write_reg sja_ocr s.ocr (write_reg sja_cdr s.cdr s)))))

-- A controller whose driver is loaded: whether its interrupt line is requested, and the table.
pub record Loaded : Type 0 where
  pub chip : Sja
  pub irq_requested : Bool
  pub devices : Devices

module _ (c : Config) (mods : ℕ → ℕ) (meanwhile : ℕ → Sja → Sja) where
  -- `rtcan_sja1000_register`; `none` is a device without private data. `request` is the result of
  -- `rtdm_irq_request`.
  unfoldable pub rtcan_sja1000_register :
      (List ℕ → ℕ → List ℕ) → RegisterFile → Status → Option Sja → Devices → Status × Option Loaded
  unfolding sja1000_chip_config read_reg
  rtcan_sja1000_register format regs request none ds = (err einval, none)
  rtcan_sja1000_register format regs request (some s) ds =
      let (_, s₁) = rtcan_sja_mode_stop mods meanwhile (set_state CanState.active s) in
      let s₂ = sja1000_chip_config (record s₁ { bus_err_on = pos 1 }) in
      let (ret, d, ds') = rtcan_dev_register c format (s₂.dev) ds in
      let loaded : Bool → Sja → Devices → Option Loaded = λ requested chip devices.
        some (record { chip = chip; irq_requested = requested; devices = devices }) in
      if not (bit_and (read_reg regs sja_sr) 7 == 4)
      then (err enodev, loaded false s₁ ds)
      else elim request [
        | err e ↦ (err e, loaded false (record s₁ { bus_err_on = pos 1 }) ds)
        | ok _ ↦ elim ret [
          | err e ↦ (err e, loaded false (record s₂ { dev = d }) ds')
          | ok _ ↦ (ok tt, loaded true (record s₂ { dev = d }) ds')
        ]
      ]

  -- `rtcan_sja1000_unregister`. `none`: the device is still referenced, and the code waits.
  unfoldable pub rtcan_sja1000_unregister : Loaded → Option Loaded
  rtcan_sja1000_unregister l =
      let (_, s) = rtcan_sja_mode_stop mods meanwhile (l.chip) in
      elim (rtcan_dev_unregister s.dev l.devices) [
        | none ↦ none
        | some (_, ds) ↦ some (record { chip = s; irq_requested = false; devices = ds })
      ]
