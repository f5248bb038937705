-- ===== src/Serial/Config/Divisor.antt =====
-- The divisor of the baud rate, and the mask of the interrupts, behind a configuration.
use rtdm_native.Prelude.{ltb, ◌-◌, if◌then◌else◌, ℕ}

-- `|a - b|`
abbrev pub off_by : ℕ → ℕ → ℕ
off_by a b = if ltb a b then b - a else a - b
