-- ===== src/Serial/Config/Bounds.antt =====
-- The fields of a serial device's configuration stay in the ranges of its registers.
use rtdm_native.Prelude.{
  ℕ, ◌*◌, ◌/◌, ◌%◌, ◌≤◌, ◌<◌, ◌≡◌, sym, subst, inl, inr, arith, bit_and, bit_or, Bool-cases, Option,
}
use rtdm_native.Prelude.Bits.{bit_and_step, bit_and_low, bit_or-le}
use rtdm_native.Serial.Types.{Context, RtserConfig, outb, testbits}
use rtdm_native.Serial.Config.{
  program_baud, set_format, line_control, set_line, set_fifo, set_timeouts, set_history,
  set_event_mask, set_handshake, set_rest,
}

-- Each field fits into its bits of the register; `fifo_depth` is one of the four thresholds.
pub record IsConfigured (config : RtserConfig) : Type 0 where
  pub parity_bits : config.parity ≤ 3
  pub data_bits : config.data_bits ≤ 3
  pub stop_bits : config.stop_bits ≤ 1
  pub event_bits : config.event_mask ≤ 15
  pub fifo_bits : config.fifo_depth ≤ 0xC0
  pub fifo_step : config.fifo_depth % 64 ≡ 0

pub fifo_field : (x : ℕ) → bit_and x 0xC0 ≡ 64 * (x / 64 % 4)
fifo_field x = omega (
  arith,
  bit_and_step x 192,
  bit_and_step (x / 2) 96,
  bit_and_step (x / 2 / 2) 48,
  bit_and_step (x / 2 / 2 / 2) 24,
  bit_and_step (x / 2 / 2 / 2 / 2) 12,
  bit_and_step (x / 2 / 2 / 2 / 2 / 2) 6,
  bit_and_low 2 (x / 2 / 2 / 2 / 2 / 2 / 2),
)

pub line_control-bound : (config : RtserConfig) → IsConfigured config → line_control config < 128
unfolding line_control
line_control-bound config c = omega (
  arith,
  c.parity_bits,
  c.data_bits,
  c.stop_bits,
  bit_or-le (config.parity * 8) (config.stop_bits * 4),
  bit_or-le (bit_or (config.parity * 8) (config.stop_bits * 4)) config.data_bits,
)

set_format-IsConfigured :
    (config old : RtserConfig) → IsConfigured old → IsConfigured (set_format config old)
unfolding set_format
set_format-IsConfigured config old c = record {
  parity_bits = ground (arith, c.parity_bits, bit_and_low 2 config.parity);
  data_bits = ground (arith, c.data_bits, bit_and_low 2 config.data_bits);
  stop_bits = ground (arith, c.stop_bits, bit_and_low 1 config.stop_bits);
  event_bits = c.event_bits;
  fifo_bits = c.fifo_bits;
  fifo_step = c.fifo_step;
}

pub set_line-IsConfigured :
    (config : RtserConfig) (ctx : Context)
    → IsConfigured ctx.config
    → IsConfigured (set_line config ctx).config
unfolding set_line outb
set_line-IsConfigured config ctx c = ground (arith, set_format-IsConfigured config ctx.config c)

pub set_fifo-IsConfigured :
    (config : RtserConfig) (ctx : Context)
    → IsConfigured ctx.config
    → IsConfigured (set_fifo config ctx).config
unfolding set_fifo outb
set_fifo-IsConfigured config ctx c = elim (Bool-cases (testbits config.config_mask 32)) [
  | inl e ↦ rw e (record {
    parity_bits = c.parity_bits;
    data_bits = c.data_bits;
    stop_bits = c.stop_bits;
    event_bits = c.event_bits;
    fifo_bits = omega (arith, fifo_field config.fifo_depth);
    fifo_step = omega (arith, fifo_field config.fifo_depth);
  })
  | inr e ↦ rw e c
]

set_timeouts-IsConfigured :
    (config : RtserConfig) (ctx : Context)
    → IsConfigured ctx.config
    → IsConfigured (set_timeouts config ctx).config
unfolding set_timeouts
set_timeouts-IsConfigured config ctx c = record {
  parity_bits = c.parity_bits;
  data_bits = c.data_bits;
  stop_bits = c.stop_bits;
  event_bits = c.event_bits;
  fifo_bits = c.fifo_bits;
  fifo_step = c.fifo_step;
}

set_event_mask-IsConfigured :
    (config : RtserConfig) (ctx : Context)
    → IsConfigured ctx.config
    → IsConfigured (set_event_mask config ctx).config
unfolding set_event_mask outb
set_event_mask-IsConfigured config ctx c = elim (Bool-cases (testbits config.config_mask 0x1000)) [
  | inl e ↦ rw e (record {
    parity_bits = c.parity_bits;
    data_bits = c.data_bits;
    stop_bits = c.stop_bits;
    event_bits = omega (arith, bit_and_low 4 config.event_mask);
    fifo_bits = c.fifo_bits;
    fifo_step = c.fifo_step;
  })
  | inr e ↦ rw e c
]

set_handshake-IsConfigured :
    (config : RtserConfig) (ctx : Context)
    → IsConfigured ctx.config
    → IsConfigured (set_handshake config ctx).config
unfolding set_handshake outb
set_handshake-IsConfigured config ctx c = elim (Bool-cases (testbits config.config_mask 0x10)) [
  | inl e ↦ rw e (record {
    parity_bits = c.parity_bits;
    data_bits = c.data_bits;
    stop_bits = c.stop_bits;
    event_bits = c.event_bits;
    fifo_bits = c.fifo_bits;
    fifo_step = c.fifo_step;
  })
  | inr e ↦ rw e c
]

set_history-config :
    (config : RtserConfig) (buffer : Option (ℕ → ℕ)) (ctx : Context)
    → (set_history config buffer ctx).2.config ≡ ctx.config
unfolding set_history
set_history-config config buffer ctx = ground arith

pub set_rest-IsConfigured :
    (config : RtserConfig) (buffer : Option (ℕ → ℕ)) (ctx : Context)
    → IsConfigured ctx.config
    → IsConfigured (set_rest config buffer ctx).2.config
unfolding set_rest
set_rest-IsConfigured config buffer ctx c =
    let ctx' = set_timeouts config (set_fifo config (set_line config ctx)) in
    set_handshake-IsConfigured config _ (
      set_event_mask-IsConfigured config _ (
        subst IsConfigured (sym (set_history-config config buffer ctx')) (
          set_timeouts-IsConfigured config _
            (set_fifo-IsConfigured config _ (set_line-IsConfigured config ctx c)))))

pub program_baud-IsConfigured :
    (baud_base : ℕ) (config : RtserConfig) (ctx : Context)
    → IsConfigured ctx.config
    → IsConfigured (program_baud baud_base config ctx).config
unfolding program_baud outb
program_baud-IsConfigured baud_base config ctx c = record {
  parity_bits = c.parity_bits;
  data_bits = c.data_bits;
  stop_bits = c.stop_bits;
  event_bits = c.event_bits;
  fifo_bits = c.fifo_bits;
  fifo_step = c.fifo_step;
}
