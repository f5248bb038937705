-- ===== src/Can/Dev/Tests.antt =====
-- The device table with a first device.
use rtdm_native.Prelude.{ℕ, List, [], ◌∷◌, none}
use rtdm_native.Can.Types.{Config, Device}
use rtdm_native.Can.Dev.{Devices, rtcan_dev_alloc, rtcan_dev_register}
use rtdm_native.Can.Dev.Table.{Registers, rtcan_dev_register-Registers}

abbrev small : Config
small = record { rxbuf_log = 6; max_devices = 2; max_receivers = 4 }

abbrev table : Devices
table _ = none

abbrev device : Device
device = record (rtcan_dev_alloc small) { name = b'r' ∷ b't' ∷ [] }

-- A mask without a number stays.
abbrev format : List ℕ → ℕ → List ℕ
format mask i = mask

registration_example : Registers small table (rtcan_dev_register small format device table)
registration_example = rtcan_dev_register-Registers small format device table
