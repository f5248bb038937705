-- ===== src/Can/Sja1000/Interrupt.antt =====
-- `rtcan_sja_interrupt` of rtcan_sja1000.c. Each round of its loop is given what the registers answer
-- then and the times at which frames are delivered; the loop ends when no event is reported.
-- The board's acknowledgement `irq_ack` is left out.
pub mod Delivery
use rtdm_native.Prelude.{ℕ, ◌==◌, if◌then◌else◌, Bool, true, false, not, ◌&&◌, List, [], ◌∷◌}
use rtdm_native.Prelude.Int.{ℤ, pos, negsuc, ◌-ℤ◌, ltb_ℤ}
use rtdm_native.Rtdm.Sem.{sem_up}
use rtdm_native.Can.Types.{Config, SockId, Socket, Device, Skb}
use rtdm_native.Can.Run.{Run, done, fault, out_of_fuel, ◌>>=◌}
use rtdm_native.Can.Receive.{rtcan_rcv, rtcan_loopback}
use rtdm_native.Can.Virt.{loopback_pending}
use rtdm_native.Can.Sja1000.Chip.{Sja, RegisterFile, read_reg, has, sja_ir}
use rtdm_native.Can.Sja1000.Frames.{rtcan_sja_rx_interrupt}
use rtdm_native.Can.Sja1000.Errors.{rtcan_sja_err_interrupt, ir_ri, ir_ti, ir_wui, ir_bei}

-- One round: the registers, and `rtdm_clock_read()` for an error frame, an echo and a frame.
pub record IrqRound : Type 0 where
  pub regs : RegisterFile
  pub error_time : List ℕ
  pub echo_time : List ℕ
  pub frame_time : List ℕ

-- What the handler works on: the controller, the sockets, and its local socket buffer.
pub record Handler : Type 0 where
  pub chip : Sja
  pub socks : SockId → Socket
  pub skb : Skb

-- `SJA_IR_EI | SJA_IR_DOI | SJA_IR_EPI | SJA_IR_ALI | SJA_IR_BEI`
abbrev pub ir_errors : ℕ
ir_errors = 0xEC

-- `bus_err_on--` on a `char` of 8 bits with a sign.
unfoldable pub dec_char : ℤ → ℤ
unfolding ◌-ℤ◌
dec_char z = if ltb_ℤ (negsuc 127) z then z -ℤ pos 1 else pos 127

module _ (c : Config) where
  -- `rtcan_rcv(dev, &skb);`
  unfoldable pub pass_on : List ℕ → Handler → Run Handler
  pass_on time h = do
    (d, socks, skb) ← rtcan_rcv c time (h.chip.dev) (h.socks) (h.skb)
    done (record { chip = record (h.chip) { dev = d }; socks = socks; skb = skb })

  -- `bus_err_on` counts the bus errors that are still reported.
  unfoldable pub error_event : ℕ → IrqRound → Handler → Run Handler
  error_event irq_source e h =
      let quiet = has irq_source ir_bei && ltb_ℤ h.chip.bus_err_on (pos 2) in
      let chip : Sja =
        if has irq_source ir_bei
        then record (h.chip) { bus_err_on = dec_char h.chip.bus_err_on }
        else h.chip in
      let (chip', skb) = rtcan_sja_err_interrupt (e.regs) irq_source chip (h.skb) in
      if not (has irq_source ir_errors)
      then done h
      else if quiet
      then done (record h { chip = chip })
      else pass_on (e.error_time) (record h { chip = chip'; skb = skb })

  unfoldable pub transmit_event : ℕ → IrqRound → Handler → Run Handler
  transmit_event irq_source e h =
      let d = h.chip.dev in
      let d' = record d { tx_sem = sem_up d.tx_sem } in
      let h' = record h { chip = record (h.chip) { dev = d' } } in
      let echo : Run Handler = (do
        (d'', socks) ← rtcan_loopback c (e.echo_time) d' (h.socks)
        done (record h' { chip = record (h'.chip) { dev = d'' }; socks = socks })) in
      if not (has irq_source ir_ti) then done h else if loopback_pending d' then echo else done h'

  unfoldable pub receive_event : ℕ → IrqRound → Handler → Run Handler
  receive_event irq_source e h =
      let (chip, skb) = rtcan_sja_rx_interrupt (e.regs) (h.chip) (h.skb) in
      if has irq_source ir_ri
      then pass_on (e.frame_time) (record h { chip = chip; skb = skb })
      else done h

  unfoldable pub wake_up : ℕ → Handler → Handler
  wake_up irq_source h =
      let s = h.chip in
      if has irq_source ir_wui
      then record h { chip = record s { dev = record (s.dev) { state = s.state_before_sleep } } }
      else h

  -- One round: wake-up, errors, transmission, reception.
  unfoldable pub irq_round : ℕ → IrqRound → Handler → Run Handler
  irq_round irq_source e h = do
    h₁ ← error_event irq_source e (wake_up irq_source h)
    h₂ ← transmit_event irq_source e h₁
    receive_event irq_source e h₂

  -- `rtcan_sja_interrupt`: whether the interrupt was this device's (RTDM_IRQ_HANDLED).
  unfoldable pub rtcan_sja_interrupt : List IrqRound → Bool → Handler → Run (Bool × Handler)
  rtcan_sja_interrupt [] handled h = done (handled, h)
  rtcan_sja_interrupt (e ∷ es) handled h =
      let irq_source = read_reg (e.regs) sja_ir in
      if irq_source == 0 then done (handled, h) else elim (irq_round irq_source e h) [
        | done h' ↦ rtcan_sja_interrupt es true h'
        | fault ↦ fault
        | out_of_fuel ↦ out_of_fuel
      ]
