-- ===== src/Can/Ioctl/Tests.antt =====
-- The bit-time calculation at a common clock and rate.
use rtdm_native.Prelude.{arith}
use rtdm_native.Can.Ioctl.{rtcan_calc_bit_time}
use rtdm_native.Can.Ioctl.Timing.{Calculates, calc_bit_time-Calculates}

bit_time_example : Calculates 8000000 500000 (rtcan_calc_bit_time 8000000 500000)
bit_time_example = calc_bit_time-Calculates 8000000 500000 (omega arith) (omega arith)
