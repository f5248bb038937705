-- ===== src/Can/Sja1000/Setup/Rate.antt =====
-- The bit timing registers of the SJA1000 and the bit times of rtcan_raw_dev.c.
use rtdm_native.Prelude.{
  some, ℕ, ◌+◌, ◌-◌, ◌*◌, ◌/◌, ◌%◌, ◌^◌, ◌≤◌, ◌<◌, ◌≡◌, refl, sym, ap, ◌∙◌, ap₂, ◌==◌, ==_iff,
  holds_below, holds_below_lem, subst, bit_and, bit_or, arith,
}
use rtdm_native.Prelude.Bits.{bit_and_low, bit_or_fields_low, bit_or-zero}
use rtdm_native.Rtdm.Errno.{ok}
use rtdm_native.Can.Types.{Bittime, BittimeStd}
use rtdm_native.Can.Ioctl.{distance, rtcan_calc_bit_time}
use rtdm_native.Can.Ioctl.BitTime.{bit_rate}
use rtdm_native.Can.Ioctl.Timing.{IsBitTime, Calculates, calc_bit_time-Calculates}
use rtdm_native.Can.Sja1000.Chip.{Sja, RegisterFile, write_reg, held, sja_btr0, sja_btr1}
use rtdm_native.Can.Sja1000.Setup.{dec_bits, shift_left, btr0_of, btr1_of, rtcan_sja_set_bit_time}

-- The bit time that the SJA1000 takes from its registers, field by field, from the data sheet's layout:
-- BTR0 is SJW (2 bits) and BRP (6 bits), BTR1 is SAM, TSEG2 (3 bits) and TSEG1 (4 bits), each less one.
-- The quanta before the sample point are one number.
pub chip_bit_time : RegisterFile → BittimeStd
chip_bit_time regs = record {
  brp = regs sja_btr0 % 64 + 1;
  prop_seg = 0;
  phase_seg1 = regs sja_btr1 % 16 + 1;
  phase_seg2 = regs sja_btr1 / 16 % 8 + 1;
  sjw = regs sja_btr0 / 64 + 1;
  sam = regs sja_btr1 / 128;
}

calc-no_prop_seg :
    (clock rate : ℕ) (t : BittimeStd)
    → rtcan_calc_bit_time clock rate ≡ some (ok t)
    → (t.prop_seg ≡ 0) × (t.sam ≡ 0)
unfolding rtcan_calc_bit_time
calc-no_prop_seg clock rate t e = (ground (arith, e), ground (arith, e))

-- A field of two bits, or of three, above the others.
mask_two : (v : ℕ) → v < 4 → bit_and (v * 64) 0xC0 ≡ v * 64
mask_two v h =
    (==_iff _ _).0
      (holds_below_lem (λ v. bit_and (v * 64) 0xC0 == v * 64) 4 (unfold holds_below in refl) h)

mask_three : (v : ℕ) → v < 8 → bit_and (v * 16) 0x70 ≡ v * 16
mask_three v h =
    (==_iff _ _).0
      (holds_below_lem (λ v. bit_and (v * 16) 0x70 == v * 16) 8 (unfold holds_below in refl) h)

btr0_value : (t : BittimeStd) → IsBitTime t → btr0_of t ≡ (t.sjw - 1) * 64 + (t.brp - 1)
unfolding btr0_of
btr0_value t h =
    ap₂ bit_or (bit_and_low 6 (dec_bits t.brp) ∙ omega (arith, h.brp)) (
      ap (λ (v : ℕ). bit_and v 0xC0) (omega (arith, h.sjw))
      ∙ mask_two (t.sjw - 1) (omega (arith, h.sjw)))
    ∙ bit_or_fields_low 6 (t.sjw - 1) (t.brp - 1) (omega (arith, h.brp))

btr1_value :
    (t : BittimeStd)
    → IsBitTime t
    → t.prop_seg ≡ 0
    → t.sam ≡ 0
    → btr1_of t ≡ (t.phase_seg2 - 1) * 16 + (t.phase_seg1 - 1)
unfolding btr1_of
btr1_value t h p q =
    ap₂ bit_or
      (ap₂ bit_or
          (bit_and_low 4 (dec_bits (t.prop_seg + t.phase_seg1)) ∙ omega (arith, h.phase_seg1, p))
          (ap (λ (v : ℕ). bit_and v 0x70) (omega (arith, h.phase_seg2))
            ∙ mask_three (t.phase_seg2 - 1) (omega (arith, h.phase_seg2)))
        ∙ bit_or_fields_low 4 (t.phase_seg2 - 1) (t.phase_seg1 - 1) (omega (arith, h.phase_seg1)))
      (ap (λ (v : ℕ). shift_left (bit_and v 1) 7) q)
    ∙ bit_or-zero _

-- The registers after a bit time was set.
abbrev pub after_bit_time : RegisterFile → BittimeStd → Sja → RegisterFile
after_bit_time before t s = held before ((rtcan_sja_set_bit_time (Bittime.std t) s).1.written)

module _ (before : RegisterFile) (t : BittimeStd) (s : Sja) (h : IsBitTime t) (p : t.prop_seg ≡ 0)
    (q : t.sam ≡ 0) where
  -- The chip takes the very bit time that was set.
  chip-after_bit_time : chip_bit_time (after_bit_time before t s) ≡ t
  unfolding chip_bit_time rtcan_sja_set_bit_time held write_reg
  chip-after_bit_time =
      rw (btr0_value t h, btr1_value t h p q) ground
        (arith, h.brp, h.phase_seg1, h.phase_seg2, h.sjw, p, q)

-- When the calculation, for a clock below 2 ^ 31 - 1 and a rate below 2 ^ 31, does not trap in a division by
-- 0 and gives a bit time, and that is set, the chip's two registers, read as the data sheet lays them
-- out, hold that bit time, and the bit rate that they make of the clock is within a tenth of the wanted
-- rate.
pub set_bit_time-rate :
    (clock rate : ℕ) (t : BittimeStd) (before : RegisterFile) (s : Sja)
    → clock < 2 ^ 31 - 1
    → rate < 2 ^ 31
    → rtcan_calc_bit_time clock rate ≡ some (ok t)
    → let chip = chip_bit_time (after_bit_time before t s) in
      (chip ≡ t) × (10 * distance rate (bit_rate clock chip) ≤ rate)
set_bit_time-rate clock rate t before s l u e =
    let meets : Calculates clock rate (some (ok t)) =
      subst (Calculates clock rate) e (calc_bit_time-Calculates clock rate l u) in
    let (p, q) = calc-no_prop_seg clock rate t e in
    let same = chip-after_bit_time before t s meets.1.0 p q in
    (same, subst (λ b. 10 * distance rate (bit_rate clock b) ≤ rate) (sym same) meets.1.1)
