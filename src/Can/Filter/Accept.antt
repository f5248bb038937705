-- ===== src/Can/Filter/Accept.antt =====
-- What a mounted filter lets through.
use rtdm_native.Prelude.{
  ℕ, ◌≡◌, refl, inl, inr, arith, bit_and, bit_or, Bool, true, false, not, Bool-cases, ◌==◌,
  if◌then◌else◌,
}
use rtdm_native.Prelude.Bits.{
  bit_clear, bit_and-set_flag, bit_and-clear_flag, set_flag-there, clear_flag-gone,
}
use rtdm_native.Can.Types.{CanFilter, can_inv_filter, can_err_flag}
use rtdm_native.Can.Filter.{rtcan_accept_msg, rtcan_raw_mount_filter}

-- The rule of include/rtdm/rtcan.h: the ID under the mask is compared with the filter's ID, and the
-- outcome inverted for a filter with CAN_INV_FILTER.
abbrev pub passes : ℕ → CanFilter → Bool
passes can_id f =
    if bit_and f.can_id can_inv_filter == 0
    then bit_and can_id f.can_mask == f.can_id
    else not (bit_and can_id f.can_mask == bit_clear f.can_id can_inv_filter)

set_mask : (m : ℕ) → (bit_and (bit_or m can_inv_filter) can_inv_filter == 0) ≡ false
set_mask m = ground (arith, set_flag-there 29 m)

clear_mask : (m : ℕ) → (bit_and (bit_clear m can_inv_filter) can_inv_filter == 0) ≡ true
clear_mask m = ground (arith, clear_flag-gone 29 m)

-- A mounted filter accepts the frames that the rule of the interface names: any frame that is no error
-- frame, for any filter.
pub accept-mount :
    (can_id : ℕ) (f : CanFilter)
    → bit_and can_id can_err_flag ≡ 0
    → rtcan_accept_msg can_id (rtcan_raw_mount_filter f) ≡ passes can_id f
unfolding rtcan_accept_msg rtcan_raw_mount_filter
accept-mount can_id f h = elim (Bool-cases (bit_and f.can_id can_inv_filter == 0)) [
  | inl plain ↦ rw (plain, clear_mask f.can_mask, bit_and-clear_flag 29 can_id f.can_mask h) refl
  | inr inverted ↦ rw (inverted, set_mask f.can_mask, bit_and-set_flag 29 can_id f.can_mask h) refl
]
