-- ===== src/Serial/Config/Settings.antt =====
-- What `rt_16550_set_config` makes of a device's configuration.
use rtdm_native.Prelude.{
  ℕ, ◌+◌, ◌*◌, ◌/◌, ◌%◌, ◌≡◌, refl, ◌∙◌, sym, ap, subst, inl, inr, arith, bit_and, bit_or, Bool,
  true, false, ◌&&◌, Bool-cases, if◌then◌else◌, Option, none, some,
}
use rtdm_native.Prelude.Bits.{bit_and_low, bit_or_fields}
use rtdm_native.Rtdm.Errno.{Status, ok, err, enomem}
use rtdm_native.Serial.Types.{
  Context, RtserConfig, outb, testbits, set_baud_flag, set_parity_flag, set_data_bits_flag,
  set_stop_bits_flag, set_handshake_flag, set_fifo_depth_flag, set_timeout_rx_flag,
  set_timeout_tx_flag, set_timeout_event_flag, set_timestamp_history_flag, set_event_mask_flag,
  rx_timestamp_history,
}
use rtdm_native.Serial.Config.{
  set_format, line_control, set_line, set_fifo, set_timeouts, swap_history, set_history,
  set_event_mask, set_handshake, set_rest,
}
use rtdm_native.Serial.Config.Bounds.{
  IsConfigured, fifo_field, line_control-bound, set_line-IsConfigured,
}

-- `new` is `old` with the fields that the mask of `config` asks for, each cut to its bits.
pub record IsApplied (config old new : RtserConfig) : Type 0 where
  pub parity :
      new.parity
      ≡ (if testbits config.config_mask set_parity_flag then config.parity % 4 else old.parity)
  pub data_bits : new.data_bits ≡ (
      if testbits config.config_mask set_data_bits_flag
      then config.data_bits % 4
      else old.data_bits)
  pub stop_bits : new.stop_bits ≡ (
      if testbits config.config_mask set_stop_bits_flag
      then config.stop_bits % 2
      else old.stop_bits)
  pub handshake :
      new.handshake
      ≡ (if testbits config.config_mask set_handshake_flag then config.handshake else old.handshake)
  pub fifo_depth : new.fifo_depth ≡ (
      if testbits config.config_mask set_fifo_depth_flag
      then 64 * (config.fifo_depth / 64 % 4)
      else old.fifo_depth)
  pub rx_timeout : new.rx_timeout ≡ (
      if testbits config.config_mask set_timeout_rx_flag then config.rx_timeout else old.rx_timeout)
  pub tx_timeout : new.tx_timeout ≡ (
      if testbits config.config_mask set_timeout_tx_flag then config.tx_timeout else old.tx_timeout)
  pub event_timeout : new.event_timeout ≡ (
      if testbits config.config_mask set_timeout_event_flag
      then config.event_timeout
      else old.event_timeout)
  pub event_mask : new.event_mask ≡ (
      if testbits config.config_mask set_event_mask_flag
      then config.event_mask % 16
      else old.event_mask)
  pub baud_rate :
      new.baud_rate
      ≡ (if testbits config.config_mask set_baud_flag then config.baud_rate else old.baud_rate)

-- The configurations behind the steps.
line_config :
    (config : RtserConfig) (ctx : Context)
    → (set_line config ctx).config ≡ set_format config ctx.config
unfolding set_line outb
line_config config ctx = ground arith

fifo_config :
    (config : RtserConfig) (ctx : Context)
    → (set_fifo config ctx).config ≡ (
        if testbits config.config_mask set_fifo_depth_flag
        then record ctx.config { fifo_depth = bit_and config.fifo_depth 0xC0 }
        else ctx.config)
unfolding set_fifo outb
fifo_config config ctx = ground arith

history_config :
    (config : RtserConfig) (buffer : Option (ℕ → ℕ)) (ctx : Context)
    → (set_history config buffer ctx).2.config ≡ ctx.config
unfolding set_history
history_config config buffer ctx = ground arith

mask_config :
    (config : RtserConfig) (ctx : Context)
    → (set_event_mask config ctx).config ≡ (
        if testbits config.config_mask set_event_mask_flag
        then record ctx.config { event_mask = bit_and config.event_mask 15 }
        else ctx.config)
unfolding set_event_mask outb
mask_config config ctx = ground arith

handshake_config :
    (config : RtserConfig) (ctx : Context)
    → (set_handshake config ctx).config ≡ (
        if testbits config.config_mask set_handshake_flag
        then record ctx.config { handshake = config.handshake }
        else ctx.config)
unfolding set_handshake outb
handshake_config config ctx = ground arith

-- All of them in their order.
abbrev settled : RtserConfig → RtserConfig → RtserConfig
settled config old =
    let a = set_format config old in
    let b =
      if testbits config.config_mask set_fifo_depth_flag
      then record a { fifo_depth = bit_and config.fifo_depth 0xC0 }
      else a in
    let c = record b {
      rx_timeout =
          if testbits config.config_mask set_timeout_rx_flag
          then config.rx_timeout
          else b.rx_timeout;
      tx_timeout =
          if testbits config.config_mask set_timeout_tx_flag
          then config.tx_timeout
          else b.tx_timeout;
      event_timeout =
          if testbits config.config_mask set_timeout_event_flag
          then config.event_timeout
          else b.event_timeout;
    } in
    let d =
      if testbits config.config_mask set_event_mask_flag
      then record c { event_mask = bit_and config.event_mask 15 }
      else c in
    if testbits config.config_mask set_handshake_flag
    then record d { handshake = config.handshake }
    else d

rest_config :
    (config : RtserConfig) (buffer : Option (ℕ → ℕ)) (ctx : Context)
    → (set_rest config buffer ctx).2.config ≡ settled config ctx.config
unfolding set_rest set_timeouts
rest_config config buffer ctx =
    let x = set_fifo config (set_line config ctx) in
    let y = (set_history config buffer (set_timeouts config x)).2 in
    let z = set_event_mask config y in
    rw
      (
        handshake_config config z,
        mask_config config y,
        history_config config buffer (set_timeouts config x),
        fifo_config config (set_line config ctx),
        line_config config ctx,
      )
      refl

-- The rate is set before the other fields.
settled-IsApplied :
    (config old : RtserConfig) (rate : ℕ)
    → rate ≡ (if testbits config.config_mask set_baud_flag then config.baud_rate else old.baud_rate)
    → IsApplied config old (settled config (record old { baud_rate = rate }))
unfolding set_format
settled-IsApplied config old rate e = record {
  parity = ground (arith, bit_and_low 2 config.parity);
  data_bits = ground (arith, bit_and_low 2 config.data_bits);
  stop_bits = ground (arith, bit_and_low 1 config.stop_bits);
  handshake = ground arith;
  fifo_depth = ground (arith, fifo_field config.fifo_depth);
  rx_timeout = ground arith;
  tx_timeout = ground arith;
  event_timeout = ground arith;
  event_mask = ground (arith, bit_and_low 4 config.event_mask);
  baud_rate = ground (arith, e);
}

pub rest-IsApplied :
    (config : RtserConfig) (buffer : Option (ℕ → ℕ)) (old : RtserConfig) (rate : ℕ) (ctx : Context)
    → ctx.config ≡ record old { baud_rate = rate }
    → rate ≡ (if testbits config.config_mask set_baud_flag then config.baud_rate else old.baud_rate)
    → IsApplied config old (set_rest config buffer ctx).2.config
rest-IsApplied config buffer old rate ctx same e =
    subst (IsApplied config old) (sym (rest_config config buffer ctx ∙ ap (settled config) same))
      (settled-IsApplied config old rate e)

-- The bits of LCR.
pub lcr_of : RtserConfig → ℕ
lcr_of config = config.parity * 8 + config.stop_bits * 4 + config.data_bits

line_control-sum :
    (config : RtserConfig) → IsConfigured config → line_control config ≡ lcr_of config
unfolding line_control lcr_of
line_control-sum config c =
    ap (λ n. bit_or n config.data_bits)
      (bit_or_fields 3 config.parity (config.stop_bits * 4) (omega (arith, c.stop_bits))
        ∙ omega arith)
    ∙ bit_or_fields 2 (config.parity * 2 + config.stop_bits) config.data_bits
        (omega (arith, c.data_bits))
    ∙ omega arith

settled_lcr :
    (config old : RtserConfig) → lcr_of (settled config old) ≡ lcr_of (set_format config old)
unfolding lcr_of
settled_lcr config old = ground arith

-- What a line flag has written to LCR is that of the final configuration.
pub rest-lcr_of :
    (config : RtserConfig) (buffer : Option (ℕ → ℕ)) (ctx : Context)
    → IsConfigured ctx.config
    → line_control (set_line config ctx).config % 256 ≡ lcr_of (set_rest config buffer ctx).2.config
rest-lcr_of config buffer ctx c =
    let fine = set_line-IsConfigured config ctx c in
    omega (arith, line_control-bound (set_line config ctx).config fine)
    ∙ line_control-sum (set_line config ctx).config fine
    ∙ ap lcr_of (line_config config ctx)
    ∙ sym (settled_lcr config ctx.config)
    ∙ sym (ap lcr_of (rest_config config buffer ctx))

abbrev pub is_absent : Option (ℕ → ℕ) → Bool
is_absent none = true
is_absent (some h) = false

-- The result for a history that is wanted, by a caller with the buffer, of a device with the history.
abbrev pub history_result : RtserConfig → Option (ℕ → ℕ) → Option (ℕ → ℕ) → Status
history_result config buffer history =
    if testbits config.config_mask set_timestamp_history_flag
      && testbits config.timestamp_history rx_timestamp_history
      && (is_absent buffer && is_absent history)
    then err enomem
    else ok tt

swap_result :
    (wanted : Bool) (buffer history : Option (ℕ → ℕ))
    → (swap_history wanted buffer history).0
      ≡ (if wanted && (is_absent buffer && is_absent history) then err enomem else ok tt)
unfolding swap_history
swap_result true none none = refl
swap_result true (some h) none = refl
swap_result true none (some h) = refl
swap_result true (some b) (some h) = refl
swap_result false none none = refl
swap_result false (some h) none = refl
swap_result false none (some h) = refl
swap_result false (some b) (some h) = refl

history_status :
    (config : RtserConfig) (buffer : Option (ℕ → ℕ)) (ctx : Context)
    → (set_history config buffer ctx).0 ≡ history_result config buffer ctx.in_history
unfolding set_history
history_status config buffer ctx =
    elim (Bool-cases (testbits config.config_mask set_timestamp_history_flag)) [
      | inl e ↦ rw e (
          swap_result (testbits config.timestamp_history rx_timestamp_history) buffer
            ctx.in_history)
      | inr e ↦ rw e refl
    ]

before_history :
    (config : RtserConfig) (ctx : Context)
    → (set_timeouts config (set_fifo config (set_line config ctx))).in_history ≡ ctx.in_history
unfolding set_timeouts set_fifo set_line outb
before_history config ctx = ground arith

pub rest-result :
    (config : RtserConfig) (buffer : Option (ℕ → ℕ)) (ctx : Context)
    → (set_rest config buffer ctx).0 ≡ history_result config buffer ctx.in_history
unfolding set_rest
rest-result config buffer ctx =
    history_status config buffer (set_timeouts config (set_fifo config (set_line config ctx)))
    ∙ ap (history_result config buffer) (before_history config ctx)
