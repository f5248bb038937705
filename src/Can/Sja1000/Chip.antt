-- ===== src/Can/Sja1000/Chip.antt =====
-- The registers of the SJA1000 (rtcan_sja1000_regs.h) and the state of its driver
-- (rtcan_sja1000.h). The chip's answers are arguments; what the driver writes is kept in order.
use rtdm_native.Prelude.{ℕ, ◌%◌, ◌==◌, if◌then◌else◌, List, [], ◌∷◌, bit_and, Bool, not}
use rtdm_native.Prelude.Int.{ℤ}
use rtdm_native.Can.Types.{Device, CanState}

abbrev pub sja_mod : ℕ
sja_mod = 0

abbrev pub sja_cmr : ℕ
sja_cmr = 1

abbrev pub sja_sr : ℕ
sja_sr = 2

abbrev pub sja_ir : ℕ
sja_ir = 3

abbrev pub sja_ier : ℕ
sja_ier = 4

abbrev pub sja_btr0 : ℕ
sja_btr0 = 6

abbrev pub sja_btr1 : ℕ
sja_btr1 = 7

abbrev pub sja_ocr : ℕ
sja_ocr = 8

abbrev pub sja_alc : ℕ
sja_alc = 11

abbrev pub sja_ecc : ℕ
sja_ecc = 12

abbrev pub sja_rxerr : ℕ
sja_rxerr = 14

abbrev pub sja_txerr : ℕ
sja_txerr = 15

abbrev pub sja_fir : ℕ
sja_fir = 16

abbrev pub sja_id1 : ℕ
sja_id1 = 17

abbrev pub sja_id2 : ℕ
sja_id2 = 18

abbrev pub sja_id3 : ℕ
sja_id3 = 19

abbrev pub sja_id4 : ℕ
sja_id4 = 20

-- `SJA_DATA_SFF(x)` and `SJA_DATA_EFF(x)` are these and x.
abbrev pub sja_data_sff : ℕ
sja_data_sff = 19

abbrev pub sja_data_eff : ℕ
sja_data_eff = 21

abbrev pub sja_amr0 : ℕ
sja_amr0 = 20

abbrev pub sja_cdr : ℕ
sja_cdr = 31

-- `SJA1000_IER`: all eight sources.
abbrev pub sja1000_ier : ℕ
sja1000_ier = 0xFF

-- `struct rtcan_sja1000` with its device; `state_before_sleep` is a field of the device that only
-- the controllers' drivers use. `bus_err_on` is a `char`. `written` lists the writes to registers, the newest first.
pub record Sja : Type 0 where
  pub dev : Device
  pub state_before_sleep : CanState
  pub bus_err_on : ℤ
  pub ocr : ℕ
  pub cdr : ℕ
  pub written : List (ℕ × ℕ)

-- What a `u8` register answers, by the register's number.
abbrev pub RegisterFile : Type 0
RegisterFile = ℕ → ℕ

-- `chip->read_reg(dev, reg)`, a `u8`
unfoldable pub read_reg : RegisterFile → ℕ → ℕ
read_reg regs reg = regs reg % 256

-- `chip->write_reg(dev, reg, val)`, where `val` is a `u8`
unfoldable pub write_reg : ℕ → ℕ → Sja → Sja
write_reg reg val s = record s { written = (reg, val % 256) ∷ s.written }

-- `if (value & flag)`
abbrev pub has : ℕ → ℕ → Bool
has value flag = not (bit_and value flag == 0)

-- What a register holds after some writes; `before` is what it held when they began.
unfoldable pub held : RegisterFile → List (ℕ × ℕ) → RegisterFile
held before [] reg = before reg
held before (w ∷ ws) reg = if w.0 == reg then w.1 else held before ws reg
