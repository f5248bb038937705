-- ===== src/Can/Mscan/Frames/Buffer.antt =====
-- The ID registers of an MSCAN's buffer, as they are written and as they are read.
use rtdm_native.Prelude.{
  ℕ, ◌+◌, ◌*◌, ◌/◌, ◌%◌, ◌^◌, ◌<◌, ◌≡◌, refl, ap, ap₂, ◌∙◌, bit_and, bit_or, ◌==◌, not, ◌||◌,
  if◌then◌else◌, Bool, true, false, holds_below, holds_below_lem, arith,
}
use rtdm_native.Prelude.Bits.{bit_and_low, bit_and_field, bit_or_fields, bit_or_flag}
use rtdm_native.Can.Types.{can_eff_flag}
use rtdm_native.Can.Sja1000.Chip.{has}
use rtdm_native.Can.Sja1000.Frames.Fields.{id_of, id_limit, has-eff}
use rtdm_native.Can.Mscan.Chip.{Mscan, get_reg, put_reg, or_reg, clear_reg, canrxfg}
use rtdm_native.Can.Mscan.Frames.{id_to_buffer, id_from_buffer, rtr_reg, rtr_bit}

-- The second ID register of an extended frame, with the bits SRR and IDE.
abbrev middle : ℕ → ℕ
middle n = n / 2 ^ 18 % 8 * 32 + 24 + n / 2 ^ 15 % 8

-- What the registers hold: offset 0, 1, 4 and 5.
abbrev pub id_register : Bool → Bool → ℕ → ℕ → ℕ
id_register true rtr n r =
    if r == 0
    then n / 2 ^ 21
    else if r == 1
    then middle n
    else if r == 4
    then n / 2 ^ 7 % 256
    else n % 2 ^ 7 * 2 + (if rtr then 1 else 0)
id_register false rtr n r = if r == 0 then n / 2 ^ 3 else n % 2 ^ 3 * 32 + (if rtr then 16 else 0)

or_ide : (x : ℕ) → x < 256 → x / 8 % 4 ≡ 0 → bit_or x 24 ≡ x + 24
or_ide x h e = ground (arith, holds_below_lem f 256 (unfold holds_below in refl) h)
  where
    f : ℕ → Bool
    f y = not (y / 8 % 4 == 0) || (bit_or y 24 == y + 24)

-- The fields of an ID as the driver masks them out.
module _ (id : ℕ) where
  mask_0 : bit_and id 0x1FE00000 / 2 ^ 21 ≡ id / 2 ^ 21 % 256
  mask_0 = omega (arith, bit_and_field 21 8 id)

  mask_1 : bit_and id 0x001C0000 / 2 ^ 13 ≡ id / 2 ^ 18 % 8 * 32
  mask_1 = omega (arith, bit_and_field 18 3 id)

  mask_2 : bit_and id 0x00038000 / 2 ^ 15 ≡ id / 2 ^ 15 % 8
  mask_2 = omega (arith, bit_and_field 15 3 id)

  mask_4 : bit_and id 0x00007F80 / 2 ^ 7 ≡ id / 2 ^ 7 % 256
  mask_4 = omega (arith, bit_and_field 7 8 id)

  mask_5 : bit_and id 0x0000007F * 2 ^ 1 ≡ id % 2 ^ 7 * 2
  mask_5 = omega (arith, bit_and_low 7 id)

  mask_std : bit_and id 0x000007F8 / 2 ^ 3 ≡ id / 2 ^ 3 % 256
  mask_std = omega (arith, bit_and_field 3 8 id)

  mask_low : bit_and id 0x00000007 * 2 ^ 5 ≡ id % 2 ^ 3 * 32
  mask_low = omega (arith, bit_and_low 3 id)

-- The buffer with the RTR bit set or cleared, as `rtcan_mscan_start_xmit` does it.
unfoldable pub with_id : Bool → ℕ → Mscan → Mscan
with_id rtr id s =
    let s₁ = id_to_buffer id s in
    if rtr then or_reg (rtr_reg id) (rtr_bit id) s₁ else clear_reg (rtr_reg id) (rtr_bit id) s₁

module _ (s : Mscan) (rtr : Bool) (n : ℕ) where
  pub with_id-0 :
      (ext : Bool)
      → n < id_limit ext
      → (with_id rtr (id_of ext rtr n) s).regs 0x60 ≡ id_register ext rtr n 0
  unfolding with_id id_to_buffer put_reg get_reg
  with_id-0 true h = ground (arith, has-eff true rtr n h, mask_0 (id_of true rtr n))
  with_id-0 false h = ground (arith, has-eff false rtr n h, mask_std (id_of false rtr n))

  high :
      n < 2 ^ 29 → bit_and (id_of true rtr n) 0x001C0000 / 2 ^ 13 % 256 % 256 ≡ n / 2 ^ 18 % 8 * 32
  high h = ground (arith, mask_1 (id_of true rtr n))

  low : n < 2 ^ 29 → bit_and (id_of true rtr n) 0x00038000 / 2 ^ 15 ≡ n / 2 ^ 15 % 8
  low h = ground (arith, mask_2 (id_of true rtr n))

  middle-written :
      n < 2 ^ 29
      → bit_or
          (bit_or
              (bit_and (id_of true rtr n) 0x001C0000 / 2 ^ 13 % 256 % 256)
              (bit_and (id_of true rtr n) 0x00038000 / 2 ^ 15)
            % 256
            % 256)
          0x18
        ≡ middle n
  middle-written h =
      let fields : ℕ = n / 2 ^ 18 % 8 * 32 + n / 2 ^ 15 % 8 in
      ap (λ (v : ℕ). bit_or (v % 256 % 256) 24) {y = fields}
        (ap₂ bit_or (high h) (low h)
          ∙ bit_or_fields 5 (n / 2 ^ 18 % 8) (n / 2 ^ 15 % 8) (omega arith))
      ∙ ap (λ (v : ℕ). bit_or v 24) {y = fields} (omega arith)
      ∙ or_ide fields (omega arith) (omega arith)
      ∙ omega arith

  pub with_id-1 :
      (ext : Bool)
      → n < id_limit ext
      → (with_id rtr (id_of ext rtr n) s).regs 0x61 ≡ id_register ext rtr n 1
  unfolding with_id id_to_buffer put_reg get_reg
  with_id-1 true h = ground (arith, has-eff true rtr n h, middle-written h)
  with_id-1 false h = ground (
    arith,
    has-eff false rtr n h,
    mask_low (id_of false rtr n),
    bit_or_fields 5 (n % 8) 16,
    bit_and_field 4 1 (n % 8 * 32),
  )

  pub with_id-4 :
      n < 2 ^ 29 → (with_id rtr (id_of true rtr n) s).regs 0x64 ≡ id_register true rtr n 4
  unfolding with_id id_to_buffer put_reg get_reg
  with_id-4 h = ground (arith, has-eff true rtr n h, mask_4 (id_of true rtr n))

  pub with_id-5 :
      n < 2 ^ 29 → (with_id rtr (id_of true rtr n) s).regs 0x65 ≡ id_register true rtr n 5
  unfolding with_id id_to_buffer put_reg get_reg
  with_id-5 h = ground (
    arith,
    has-eff true rtr n h,
    mask_5 (id_of true rtr n),
    bit_or_fields 1 (n % 2 ^ 7) 1,
    bit_and_low 1 (n % 2 ^ 7 * 2),
  )

-- Reading the ID back from registers with these values.
module _ (t : Mscan) (ext rtr : Bool) (n : ℕ) (h : n < id_limit ext)
    (reg_1 : t.regs 0x41 ≡ id_register ext rtr n 1) where
  pub buffer-ext : has (get_reg t (canrxfg + 1)) 0x08 ≡ ext
  unfolding get_reg
  buffer-ext = ground (arith, reg_1, bit_and_field 3 1 (id_register ext rtr n 1))

  pub buffer-std_rtr : ext ≡ false → has (get_reg t (canrxfg + 1)) 0x10 ≡ rtr
  unfolding get_reg
  buffer-std_rtr e = ground (arith, e, reg_1, bit_and_field 4 1 (id_register ext rtr n 1))

module _ (t : Mscan) (rtr : Bool) (n : ℕ) where
  pub buffer-ext_rtr :
      n < 2 ^ 29 → t.regs 0x45 ≡ id_register true rtr n 5 → has (get_reg t (canrxfg + 5)) 0x01 ≡ rtr
  unfolding get_reg
  buffer-ext_rtr h e = ground (arith, e, bit_and_low 1 (id_register true rtr n 5))

  ext_fields :
      n < 2 ^ 29
      → (bit_or
          (bit_or
            (bit_or
              (bit_or
                (bit_or (n / 2 ^ 21 * 2 ^ 21) (n / 2 ^ 18 % 8 * 32 * 2 ^ 13))
                (n / 2 ^ 15 % 8 * 2 ^ 15))
              (n / 2 ^ 7 % 256 * 2 ^ 7))
            (n % 2 ^ 7))
          can_eff_flag)
        ≡ id_of true false n
  ext_fields h =
      ap (λ (v : ℕ). bit_or (bit_or (bit_or (bit_or v f2) f4) f5) can_eff_flag)
        {y = n / 2 ^ 18 * 2 ^ 18}
        (bit_or_fields 21 (n / 2 ^ 21) (n / 2 ^ 18 % 8 * 32 * 2 ^ 13) (omega arith) ∙ omega arith)
      ∙ ap (λ (v : ℕ). bit_or (bit_or (bit_or v f4) f5) can_eff_flag) {y = n / 2 ^ 15 * 2 ^ 15}
          (bit_or_fields 18 (n / 2 ^ 18) f2 (omega arith) ∙ omega arith)
      ∙ ap (λ (v : ℕ). bit_or (bit_or v f5) can_eff_flag) {y = n / 2 ^ 7 * 2 ^ 7}
          (bit_or_fields 15 (n / 2 ^ 15) f4 (omega arith) ∙ omega arith)
      ∙ ap (λ (v : ℕ). bit_or v can_eff_flag) {y = 2 * 0 * 2 ^ 31 + n}
          (bit_or_fields 7 (n / 2 ^ 7) f5 (omega arith) ∙ omega arith)
      ∙ bit_or_flag 31 0 n (omega arith)
      ∙ omega arith
    where
      f2 : ℕ
      f2 = n / 2 ^ 15 % 8 * 2 ^ 15

      f4 : ℕ
      f4 = n / 2 ^ 7 % 256 * 2 ^ 7

      f5 : ℕ
      f5 = n % 2 ^ 7

  pub id_from_buffer-ext :
      n < 2 ^ 29
      → t.regs 0x40 ≡ id_register true rtr n 0
      → t.regs 0x41 ≡ id_register true rtr n 1
      → t.regs 0x44 ≡ id_register true rtr n 4
      → t.regs 0x45 ≡ id_register true rtr n 5
      → id_from_buffer t ≡ id_of true false n
  unfolding id_from_buffer get_reg
  id_from_buffer-ext h e0 e1 e4 e5 = ground (
    arith,
    e0,
    e1,
    e4,
    e5,
    bit_and_field 3 1 (middle n),
    bit_and_field 5 3 (middle n),
    bit_and_low 3 (middle n),
    ext_fields h,
  )

  pub id_from_buffer-std :
      n < 2 ^ 11
      → t.regs 0x40 ≡ id_register false rtr n 0
      → t.regs 0x41 ≡ id_register false rtr n 1
      → id_from_buffer t ≡ id_of false false n
  unfolding id_from_buffer get_reg
  id_from_buffer-std h e0 e1 = ground (
    arith,
    e0,
    e1,
    bit_and_field 3 1 (id_register false rtr n 1),
    bit_or_fields 3 (n / 2 ^ 3) (n % 2 ^ 3),
  )
