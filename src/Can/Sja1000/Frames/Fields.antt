-- ===== src/Can/Sja1000/Frames/Fields.antt =====
-- The fields of a CAN ID and of the frame information register of the SJA1000, bit by bit.
use rtdm_native.Prelude.{
  ℕ, ◌+◌, ◌*◌, ◌/◌, ◌%◌, ◌^◌, ◌<◌, ◌≡◌, ap, ◌∙◌, bit_and, bit_or, if◌then◌else◌, Bool, arith,
}
use rtdm_native.Prelude.Bits.{bit_and_low, bit_and_flag, bit_or_fields, bit_or_flag}
use rtdm_native.Can.Types.{can_eff_flag, can_rtr_flag}
use rtdm_native.Can.Sja1000.Chip.{has}

-- The CAN ID of an extended or standard frame, with or without the RTR flag.
abbrev pub id_of : Bool → Bool → ℕ → ℕ
id_of ext rtr ident = (if ext then can_eff_flag else 0) + (if rtr then can_rtr_flag else 0) + ident

-- Identifiers have 29 bits or 11.
abbrev pub id_limit : Bool → ℕ
id_limit ext = if ext then 2 ^ 29 else 2 ^ 11

-- The four ID registers of an extended frame hold its 29 bits.
pub ext_id :
    (n : ℕ)
    → n < 2 ^ 29
    → bit_or
        (bit_or
          (bit_or (bit_or can_eff_flag (n / 2 ^ 21 * 2 ^ 21)) (n / 2 ^ 13 % 256 * 2 ^ 13))
          (n / 2 ^ 5 % 256 * 2 ^ 5))
        (n % 2 ^ 5)
      ≡ can_eff_flag + n
ext_id n h =
    ap (λ (v : ℕ). bit_or (bit_or (bit_or v id2) id3) id4) {y = (1024 + n / 2 ^ 21) * 2 ^ 21}
      (bit_or_fields 29 4 (n / 2 ^ 21 * 2 ^ 21) (omega arith) ∙ omega arith)
    ∙ ap (λ (v : ℕ). bit_or (bit_or v id3) id4) {y = (2 ^ 18 + n / 2 ^ 13) * 2 ^ 13}
        (bit_or_fields 21 (1024 + n / 2 ^ 21) id2 (omega arith) ∙ omega arith)
    ∙ ap (λ (v : ℕ). bit_or v id4) {y = (2 ^ 26 + n / 2 ^ 5) * 2 ^ 5}
        (bit_or_fields 13 (2 ^ 18 + n / 2 ^ 13) id3 (omega arith) ∙ omega arith)
    ∙ bit_or_fields 5 (2 ^ 26 + n / 2 ^ 5) id4 (omega arith)
    ∙ omega arith
  where
    id2 : ℕ
    id2 = n / 2 ^ 13 % 256 * 2 ^ 13

    id3 : ℕ
    id3 = n / 2 ^ 5 % 256 * 2 ^ 5

    id4 : ℕ
    id4 = n % 2 ^ 5

pub std_id : (n : ℕ) → n < 2 ^ 11 → bit_or (n / 2 ^ 3 * 2 ^ 3) (n % 2 ^ 3) ≡ n
std_id n h = bit_or_fields 3 (n / 2 ^ 3) (n % 2 ^ 3) (omega arith) ∙ omega arith

-- The two flags in the ID, and the frame information register that goes with them.
module _ (ext rtr : Bool) (n : ℕ) (h : n < id_limit ext) where
  pub has-eff : has (id_of ext rtr n) can_eff_flag ≡ ext
  has-eff =
      ground (arith, bit_and_flag 31 (if ext then 1 else 0) ((if rtr then can_rtr_flag else 0) + n))

  pub has-rtr : has (id_of ext rtr n) can_rtr_flag ≡ rtr
  has-rtr = ground (arith, bit_and_flag 30 ((if ext then 2 else 0) + (if rtr then 1 else 0)) n)

abbrev pub fir_of : Bool → Bool → ℕ → ℕ
fir_of ext rtr dlc = (if ext then 0x80 else 0) + (if rtr then 0x40 else 0) + dlc

module _ (ext rtr : Bool) (dlc : ℕ) (h : dlc < 16) where
  pub fir-written :
      (let fir : ℕ = if ext then bit_or dlc 0x80 else dlc in if rtr then bit_or fir 0x40 else fir)
      ≡ fir_of ext rtr dlc
  fir-written = ground (arith, bit_or_flag 7 0 dlc, bit_or_flag 6 (if ext then 1 else 0) dlc)

  pub fir-eff : has (fir_of ext rtr dlc) 0x80 ≡ ext
  fir-eff = ground (arith, bit_and_flag 7 (if ext then 1 else 0) ((if rtr then 0x40 else 0) + dlc))

  pub fir-rtr : has (fir_of ext rtr dlc) 0x40 ≡ rtr
  fir-rtr = ground (arith, bit_and_flag 6 ((if ext then 2 else 0) + (if rtr then 1 else 0)) dlc)

  pub fir-dlc : bit_and (fir_of ext rtr dlc) 0x0F ≡ dlc
  fir-dlc = ground (arith, bit_and_low 4 (fir_of ext rtr dlc))
