-- ===== src/Can/Sja1000/Interrupt/Delivery.antt =====
-- From one SJA1000 to another: `rtcan_sja_start_xmit`, the bus, and `rtcan_sja_interrupt`.
use rtdm_native.Prelude.{ℕ, ◌≤◌, ◌≡◌, refl, Bool, true, false, [], ◌∷◌, ap, ◌∙◌}
use rtdm_native.Can.Types.{Config, CanFrame, Skb}
use rtdm_native.Can.Run.{Run, done, fault, out_of_fuel, ◌>>=◌}
use rtdm_native.Can.Sja1000.Chip.{Sja, RegisterFile, read_reg, write_reg, sja_ir, sja_cmr}
use rtdm_native.Can.Sja1000.Errors.{ir_ri}
use rtdm_native.Can.Sja1000.Frames.{rtcan_sja_rx_interrupt}
use rtdm_native.Can.Sja1000.Frames.RoundTrip.{IsFrame, skb_of, sent, rx-start_xmit, rx-agree}
use rtdm_native.Can.Sja1000.Interrupt.{
  IrqRound, Handler, pass_on, error_event, transmit_event, receive_event, wake_up, irq_round,
  rtcan_sja_interrupt,
}

-- The handler's end, with RTDM_IRQ_HANDLED.
abbrev pub handled : Handler → Run (Bool × Handler)
handled h = done (true, h)

-- The loop of the handler, written as a bind.
finish :
    (m : Run Handler)
    → (elim m [ done h ↦ done (true, h) | fault ↦ fault | out_of_fuel ↦ out_of_fuel ])
      ≡ (m >>= handled)
finish (done h) = refl
finish fault = refl
finish out_of_fuel = refl

module _ (c : Config) (ext rtr : Bool) (ident : ℕ) (frame : CanFrame) (s : Sja)
    (before : RegisterFile) (e : IrqRound) (h : Handler) where
  -- What the interrupt handler hands to `rtcan_rcv` for this frame.
  abbrev pub with_frame : Handler
  with_frame = record h {
    chip = write_reg sja_cmr 4 h.chip;
    skb = skb_of rtr frame h.chip.dev.ifindex h.skb.rb_frame.area;
  }

  received :
      IsFrame ext rtr ident frame
      → ((r : ℕ) → 16 ≤ r → e.regs r ≡ sent before frame s r)
      → rtcan_sja_rx_interrupt e.regs h.chip h.skb ≡ (with_frame.chip, with_frame.skb)
  unfolding rtcan_sja_rx_interrupt
  received f agree =
      ap (λ (k : Skb). (write_reg sja_cmr 4 h.chip, k))
        (ap (λ (p : Sja × Skb). p.1) (rx-agree e.regs (sent before frame s) h.chip h.skb agree)
          ∙ rx-start_xmit before ext rtr ident frame s f h.chip h.skb)

  -- A frame that one controller was told to send, and that the bus puts into the receive buffer of another, comes
  -- out of the other's receive interrupt as it was: its ID with the flags, its DLC and, unless it is a
  -- remote request, its data. The handler releases the buffer and passes the frame to `rtcan_rcv`.
  pub interrupt-start_xmit :
      IsFrame ext rtr ident frame
      → read_reg e.regs sja_ir ≡ ir_ri
      → ((r : ℕ) → 16 ≤ r → e.regs r ≡ sent before frame s r)
      → rtcan_sja_interrupt c (e ∷ []) false h ≡ (pass_on c e.frame_time with_frame >>= handled)
  unfolding rtcan_sja_interrupt irq_round error_event transmit_event receive_event wake_up
  interrupt-start_xmit f irq agree = rw (irq, received f agree) (finish _)
