-- ===== src/Serial/Types.antt =====
-- The data of ksrc/drivers/serial/16550A.c: the registers of the UART, the configuration and the
-- context of an open device.
use rtdm_native.Prelude.{ℕ, ◌-◌, ◌%◌, bit_and, Bool, not, ◌==◌, List, [], ◌∷◌, ◌++◌, Option}
use rtdm_native.Prelude.Int.{ℤ}
use rtdm_native.Rtdm.Event.{Event}

abbrev pub in_buffer_size : ℕ
in_buffer_size = 4096

abbrev pub out_buffer_size : ℕ
out_buffer_size = 4096

-- Bits of the registers.
abbrev pub lcr_dlab : ℕ
lcr_dlab = 0x80

abbrev pub fcr_fifo : ℕ
fcr_fifo = 0x01

abbrev pub fcr_reset_rx : ℕ
fcr_reset_rx = 0x02

abbrev pub fcr_reset_tx : ℕ
fcr_reset_tx = 0x04

abbrev pub ier_rx : ℕ
ier_rx = 0x01

abbrev pub ier_tx : ℕ
ier_tx = 0x02

abbrev pub ier_stat : ℕ
ier_stat = 0x04

abbrev pub iir_modem : ℕ
iir_modem = 0x00

abbrev pub iir_pirq : ℕ
iir_pirq = 0x01

abbrev pub iir_tx : ℕ
iir_tx = 0x02

abbrev pub iir_rx : ℕ
iir_rx = 0x04

abbrev pub iir_stat : ℕ
iir_stat = 0x06

abbrev pub iir_mask : ℕ
iir_mask = 0x07

-- The line status.
abbrev pub lsr_data : ℕ
lsr_data = 0x01

abbrev pub lsr_overrun_err : ℕ
lsr_overrun_err = 0x02

abbrev pub lsr_break_ind : ℕ
lsr_break_ind = 0x10

abbrev pub soft_overrun_err : ℕ
soft_overrun_err = 0x100

-- Overrun, parity, framing and break.
abbrev pub lsr_errors : ℕ
lsr_errors = 0x1E

-- The events of `RTSER_RTIOC_WAIT_EVENT`.
abbrev pub event_rxpend : ℕ
event_rxpend = 0x01

abbrev pub event_errpend : ℕ
event_errpend = 0x02

abbrev pub event_modemhi : ℕ
event_modemhi = 0x04

abbrev pub event_modemlo : ℕ
event_modemlo = 0x08

-- The fields that a configuration sets.
abbrev pub set_baud_flag : ℕ
set_baud_flag = 0x0001

abbrev pub set_parity_flag : ℕ
set_parity_flag = 0x0002

abbrev pub set_data_bits_flag : ℕ
set_data_bits_flag = 0x0004

abbrev pub set_stop_bits_flag : ℕ
set_stop_bits_flag = 0x0008

abbrev pub set_handshake_flag : ℕ
set_handshake_flag = 0x0010

abbrev pub set_fifo_depth_flag : ℕ
set_fifo_depth_flag = 0x0020

abbrev pub set_timeout_rx_flag : ℕ
set_timeout_rx_flag = 0x0100

abbrev pub set_timeout_tx_flag : ℕ
set_timeout_tx_flag = 0x0200

abbrev pub set_timeout_event_flag : ℕ
set_timeout_event_flag = 0x0400

abbrev pub set_timestamp_history_flag : ℕ
set_timestamp_history_flag = 0x0800

abbrev pub set_event_mask_flag : ℕ
set_event_mask_flag = 0x1000

-- The masks of the fields.
abbrev pub parity_mask : ℕ
parity_mask = 0x03

abbrev pub data_bits_mask : ℕ
data_bits_mask = 0x03

abbrev pub stop_bits_mask : ℕ
stop_bits_mask = 0x01

abbrev pub fifo_mask : ℕ
fifo_mask = 0xC0

abbrev pub event_mask_mask : ℕ
event_mask_mask = 0x0F

abbrev pub rx_timestamp_history : ℕ
rx_timestamp_history = 0x01

-- RTSER_MCR_DTR, RTSER_MCR_RTS and RTSER_MCR_OUT2.
abbrev pub mcr_on : ℕ
mcr_on = 0x0B

-- `testbits(flags, mask)` as a condition.
abbrev pub testbits : ℕ → ℕ → Bool
testbits flags mask = not (bit_and flags mask == 0)

-- The ports of a device that the driver writes, and what it wrote, in order. DLL and DLM are the
-- ports of THR and IER while LCR has the bit LCR_DLAB.
pub data Port : Type 0 where
  thr dll ier dlm fcr lcr mcr : Port

abbrev pub Write : Type 0
Write = ℕ × Port

-- `struct rtser_config`. `baud_rate` is not negative: a negative one counts as above every
-- `baud_base` in the test of the request.
pub record RtserConfig : Type 0 where
  pub config_mask : ℕ
  pub baud_rate : ℕ
  pub parity : ℕ
  pub data_bits : ℕ
  pub stop_bits : ℕ
  pub handshake : ℕ
  pub fifo_depth : ℕ
  pub rx_timeout : ℤ
  pub tx_timeout : ℤ
  pub event_timeout : ℤ
  pub timestamp_history : ℕ
  pub event_mask : ℕ

-- `struct rt_16550_context` without its spin lock and its interrupt handle, and the writes to the
-- device so far. `out_lock` says whether a task owns the mutex; a bit of `in_lock` or `ioc_event_lock` is a
-- Bool; `in_history` is `none` for NULL.
pub record Context : Type 0 where
  pub config : RtserConfig
  pub in_head : ℕ
  pub in_tail : ℕ
  pub in_npend : ℕ
  pub in_nwait : ℤ
  pub in_event : Event
  pub in_buf : ℕ → ℕ
  pub in_lock : Bool
  pub in_history : Option (ℕ → ℕ)
  pub out_head : ℕ
  pub out_tail : ℕ
  pub out_npend : ℕ
  pub out_event : Event
  pub out_buf : ℕ → ℕ
  pub out_lock : Bool
  pub last_timestamp : ℕ
  pub ioc_events : ℕ
  pub ioc_event : Event
  pub ioc_event_lock : Bool
  pub ier_status : ℕ
  pub mcr_status : ℕ
  pub status : ℕ
  pub saved_errors : ℕ
  pub writes : List Write

-- `outb(value, port)`: a port takes a byte.
unfoldable pub outb : ℕ → Port → Context → Context
outb value port ctx = record ctx { writes = ctx.writes ++ (value % 256, port) ∷ [] }

-- `i & (IN_BUFFER_SIZE - 1)`, which is `i & (OUT_BUFFER_SIZE - 1)` too.
unfoldable pub wrap : ℕ → ℕ
wrap i = bit_and i (in_buffer_size - 1)
