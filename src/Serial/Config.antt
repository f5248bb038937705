-- ===== src/Serial/Config.antt =====
-- `rt_16550_set_config` of ksrc/drivers/serial/16550A.c: one function for each field group, in the
-- order of the code.
pub mod Bounds
pub mod Settings
pub mod Registers
pub mod Divisor
use rtdm_native.Prelude.{
  ℕ, ◌+◌, ◌*◌, ◌/◌, ◌%◌, ◌^◌, bit_and, bit_or, Bool, true, false, not, ◌&&◌, ltb, ◌==◌,
  if◌then◌else◌, Option, none, some,
}
use rtdm_native.Prelude.Bits.{bit_clear}
use rtdm_native.Prelude.Int.{negsuc, pos}
use rtdm_native.Rtdm.Errno.{Status, ok, err, enomem}
use rtdm_native.Serial.Types.{
  Context, RtserConfig, dll, ier, dlm, fcr, lcr, mcr, outb, testbits, lcr_dlab, fcr_fifo,
  fcr_reset_rx, fcr_reset_tx, ier_tx, event_rxpend, event_errpend, event_modemhi, event_modemlo,
  set_baud_flag, set_parity_flag, set_data_bits_flag, set_stop_bits_flag, set_handshake_flag,
  set_fifo_depth_flag, set_timeout_rx_flag, set_timeout_tx_flag, set_timeout_event_flag,
  set_timestamp_history_flag, set_event_mask_flag, parity_mask, data_bits_mask, stop_bits_mask,
  fifo_mask, event_mask_mask, rx_timestamp_history, mcr_on,
}

-- `static const struct rtser_config default_config`; RTSER_DEF_TIMEOUT is 0, without end.
abbrev pub default_config : RtserConfig
default_config = record {
  config_mask = 0xFFFF;
  baud_rate = 9600;
  parity = 0x00;
  data_bits = 0x03;
  stop_bits = 0x00;
  handshake = 0x00;
  fifo_depth = 0x00;
  rx_timeout = pos 0;
  tx_timeout = pos 0;
  event_timeout = pos 0;
  timestamp_history = 0x00;
  event_mask = 0x00;
}

-- The divisor, in unsigned arithmetic, for a rate that is not 0.
unfoldable pub divisor : ℕ → ℕ → ℕ
divisor baud_base rate = (baud_base + rate / 2) % 2 ^ 32 / rate

-- The new rate, and its divisor in DLL and DLM.
unfoldable pub program_baud : ℕ → RtserConfig → Context → Context
program_baud baud_base config ctx =
    let baud_div = divisor baud_base config.baud_rate in
    let ctx' = record ctx { config = record ctx.config { baud_rate = config.baud_rate } } in
    outb (baud_div / 256) dlm (outb (bit_and baud_div 0xff) dll (outb lcr_dlab lcr ctx'))

-- `none` is the division by the rate 0.
unfoldable pub set_baud : ℕ → RtserConfig → Context → Option Context
set_baud baud_base config ctx =
    let programmed = program_baud baud_base config ctx in
    if not (testbits config.config_mask set_baud_flag)
    then some ctx
    else if config.baud_rate == 0
    then none
    else some programmed

unfoldable pub set_format : RtserConfig → RtserConfig → RtserConfig
set_format config old = record old {
  parity =
      if testbits config.config_mask set_parity_flag
      then bit_and config.parity parity_mask
      else old.parity;
  data_bits =
      if testbits config.config_mask set_data_bits_flag
      then bit_and config.data_bits data_bits_mask
      else old.data_bits;
  stop_bits =
      if testbits config.config_mask set_stop_bits_flag
      then bit_and config.stop_bits stop_bits_mask
      else old.stop_bits;
}

-- The line control register for a configuration.
unfoldable pub line_control : RtserConfig → ℕ
line_control config = bit_or (bit_or (config.parity * 8) (config.stop_bits * 4)) config.data_bits

unfoldable pub set_line : RtserConfig → Context → Context
set_line config ctx =
    let ctx' = record ctx { config = set_format config ctx.config } in
    let all = set_parity_flag + set_data_bits_flag + set_stop_bits_flag + set_baud_flag in
    if testbits config.config_mask all
    then record (outb (line_control ctx'.config) lcr ctx') {
      status = 0;
      ioc_events = bit_clear ctx.ioc_events event_errpend;
    }
    else ctx'

unfoldable pub set_fifo : RtserConfig → Context → Context
set_fifo config ctx =
    let depth = bit_and config.fifo_depth fifo_mask in
    let ctx' = record ctx { config = record ctx.config { fifo_depth = depth } } in
    if testbits config.config_mask set_fifo_depth_flag
    then outb (bit_or fcr_fifo depth) fcr (outb (fcr_fifo + fcr_reset_rx + fcr_reset_tx) fcr ctx')
    else ctx

unfoldable pub set_timeouts : RtserConfig → Context → Context
set_timeouts config ctx = record ctx {
  config = record ctx.config {
    rx_timeout =
        if testbits config.config_mask set_timeout_rx_flag
        then config.rx_timeout
        else ctx.config.rx_timeout;
    tx_timeout =
        if testbits config.config_mask set_timeout_tx_flag
        then config.tx_timeout
        else ctx.config.tx_timeout;
    event_timeout =
        if testbits config.config_mask set_timeout_event_flag
        then config.event_timeout
        else ctx.config.event_timeout;
  };
}

-- With a history wanted or not, `*in_history_ptr` and `in_history` change hands.
unfoldable pub swap_history :
    Bool → Option (ℕ → ℕ) → Option (ℕ → ℕ) → Status × Option (ℕ → ℕ) × Option (ℕ → ℕ)
swap_history true none none = (err enomem, none, none)
swap_history true (some h) none = (ok tt, none, some h)
swap_history true buffer (some h) = (ok tt, buffer, some h)
swap_history false buffer history = (ok tt, history, none)

unfoldable pub set_history :
    RtserConfig → Option (ℕ → ℕ) → Context → Status × Option (ℕ → ℕ) × Context
set_history config buffer ctx =
    let wanted = testbits config.timestamp_history rx_timestamp_history in
    let (status, buffer', history) = swap_history wanted buffer ctx.in_history in
    if testbits config.config_mask set_timestamp_history_flag
    then (status, buffer', record ctx { in_history = history })
    else (ok tt, buffer, ctx)

-- The bit that the code sets or clears for the modem lines is IER_TX.
unfoldable pub set_event_mask : RtserConfig → Context → Context
set_event_mask config ctx =
    let pending =
      if testbits config.event_mask event_rxpend && ltb 0 ctx.in_npend then event_rxpend else 0 in
    let pending' =
      if testbits config.event_mask event_errpend && not (ctx.status == 0)
      then bit_or pending event_errpend
      else pending in
    let enabled =
      if testbits config.event_mask (event_modemhi + event_modemlo)
      then bit_or ctx.ier_status ier_tx
      else bit_clear ctx.ier_status ier_tx in
    let ctx' = record ctx {
      config = record ctx.config { event_mask = bit_and config.event_mask event_mask_mask };
      ioc_events = pending';
      ier_status = enabled;
    } in
    if testbits config.config_mask set_event_mask_flag then outb enabled ier ctx' else ctx

unfoldable pub set_handshake : RtserConfig → Context → Context
set_handshake config ctx =
    let ctx' = record ctx {
      config = record ctx.config { handshake = config.handshake };
      mcr_status = mcr_on;
    } in
    if testbits config.config_mask set_handshake_flag then outb mcr_on mcr ctx' else ctx

-- What follows the baud rate.
unfoldable pub set_rest : RtserConfig → Option (ℕ → ℕ) → Context → Status × Option (ℕ → ℕ) × Context
set_rest config buffer ctx =
    let ctx' = set_timeouts config (set_fifo config (set_line config ctx)) in
    let (status, buffer', ctx'') = set_history config buffer ctx' in
    (status, buffer', set_handshake config (set_event_mask config ctx''))

-- `rt_16550_set_config`: its result, `*in_history_ptr` and the context; `none` is the division by 0.
unfoldable pub rt_16550_set_config :
    ℕ → RtserConfig → Option (ℕ → ℕ) → Context → Option (Status × Option (ℕ → ℕ) × Context)
rt_16550_set_config baud_base config buffer ctx = elim (set_baud baud_base config ctx) [
  | none ↦ none
  | some ctx' ↦ some (set_rest config buffer ctx')
]
