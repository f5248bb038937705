-- ===== src/Can/Mscan/Chip.antt =====
-- The registers of the MSCAN (rtcan_mscan_regs.h) by their offsets, and the state of its driver. What
-- the chip changes by itself, the flags and acknowledgements, are arguments of the operations; the
-- registers here hold what the driver or, in the receive buffer, the bus has put there.
use rtdm_native.Prelude.{ℕ, ◌+◌, ◌*◌, ◌/◌, ◌%◌, List, ◌∷◌, bit_or}
use rtdm_native.Prelude.Bits.{bit_clear}
use rtdm_native.Memory.{update}
use rtdm_native.Can.Types.{Device, CanState}

abbrev pub canctl0 : ℕ
canctl0 = 0x00

abbrev pub canctl1 : ℕ
canctl1 = 0x01

abbrev pub canbtr0 : ℕ
canbtr0 = 0x04

abbrev pub canbtr1 : ℕ
canbtr1 = 0x05

abbrev pub canrflg : ℕ
canrflg = 0x08

abbrev pub canrier : ℕ
canrier = 0x09

abbrev pub cantflg : ℕ
cantflg = 0x0C

abbrev pub cantier : ℕ
cantier = 0x0D

abbrev pub cantbsel : ℕ
cantbsel = 0x14

abbrev pub canidac : ℕ
canidac = 0x15

-- The foreground receive and transmit buffers.
abbrev pub canrxfg : ℕ
canrxfg = 0x40

abbrev pub cantxfg : ℕ
cantxfg = 0x60

-- `struct mscan_msgbuf`: offsets in a buffer.
abbrev pub dsr : ℕ
dsr = 0x08

abbrev pub dlr : ℕ
dlr = 0x18

abbrev pub tbpr : ℕ
tbpr = 0x19

-- `MSCAN_RIER`
abbrev pub mscan_rier : ℕ
mscan_rier = 0xFF

-- A device of this driver and its registers. `commands` lists the writes to the two flag registers,
-- the newest first: there a written 1 asks for something and is not kept.
pub record Mscan : Type 0 where
  pub dev : Device
  pub state_before_sleep : CanState
  pub regs : ℕ → ℕ
  pub commands : List (ℕ × ℕ)

-- Reading and writing a `volatile u8`.
unfoldable pub get_reg : Mscan → ℕ → ℕ
get_reg s reg = s.regs reg % 256

unfoldable pub put_reg : ℕ → ℕ → Mscan → Mscan
put_reg reg val s = record s { regs = update s.regs reg (val % 256) }

unfoldable pub command : ℕ → ℕ → Mscan → Mscan
command reg val s = record s { commands = (reg, val % 256) ∷ s.commands }

-- `regs->reg |= flags;` and `regs->reg &= ~flags;`
abbrev pub or_reg : ℕ → ℕ → Mscan → Mscan
or_reg reg flags s = put_reg reg (bit_or (get_reg s reg) flags) s

abbrev pub clear_reg : ℕ → ℕ → Mscan → Mscan
clear_reg reg flags s = put_reg reg (bit_clear (get_reg s reg) flags) s

-- `dsr[i + (i / 2) * 2]`
abbrev pub data_reg : ℕ → ℕ → ℕ
data_reg base i = base + dsr + (i + i / 2 * 2)
