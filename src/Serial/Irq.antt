-- ===== src/Serial/Irq.antt =====
-- The interrupt handler of ksrc/drivers/serial/16550A.c. What the registers of the device answer is an
-- argument: a list of polls, each with what the handler can read in one round of its loop.
pub mod Progress
pub mod Serving
pub mod Wakeup
pub mod Transmit
pub mod Overrun
use rtdm_native.Prelude.{
  ℕ, zero, suc, ◌+◌, ◌-◌, ◌*◌, ◌^◌, bit_and, bit_or, bit_xor, Bool, true, false, not, ◌&&◌, ◌||◌,
  ltb, leb, ◌==◌, if◌then◌else◌, List, [], ◌∷◌, Option, none, some, ◌≡◌, refl,
}
use rtdm_native.Prelude.Bits.{bit_clear}
use rtdm_native.Prelude.Int.{ℤ, pos, negsuc}
use rtdm_native.Memory.{update}
use rtdm_native.Rtdm.Event.{event_signal}
use rtdm_native.Serial.Types.{
  Context, in_buffer_size, thr, ier, lsr_data, lsr_errors, soft_overrun_err, event_rxpend,
  event_errpend, event_modemhi, event_modemlo, iir_pirq, iir_rx, iir_stat, iir_tx, iir_modem,
  iir_mask, ier_stat, ier_tx, testbits, outb, wrap,
}

-- One round: IIR, the pairs of RHR and LSR that the reception loop would read, LSR and MSR.
pub record Poll : Type 0 where
  pub iir : ℕ
  pub chars : List (ℕ × ℕ)
  pub lsr : ℕ
  pub msr : ℕ

-- A character goes into the ring, with its timestamp. A full ring keeps its count, but `in_tail` goes on.
unfoldable pub put_char : ℕ → ℕ → Context → Context
put_char timestamp c ctx = record ctx {
  in_buf = update ctx.in_buf ctx.in_tail c;
  in_history = elim ctx.in_history [ none ↦ none | some h ↦ some (update h ctx.in_tail timestamp) ];
  in_tail = wrap (ctx.in_tail + 1);
  in_npend = if ltb in_buffer_size (ctx.in_npend + 1) then ctx.in_npend else ctx.in_npend + 1;
}

-- `lsr` behind a character: the errors so far, a new overrun of the ring, and the bits of the device.
unfoldable pub next_lsr : ℕ → ℕ → ℕ → ℕ
next_lsr npend reg lsr =
    let lsr' = if ltb in_buffer_size (npend + 1) then bit_or lsr soft_overrun_err else lsr in
    bit_or (bit_clear lsr' lsr_data) (bit_and reg (lsr_data + lsr_errors))

-- The loop of `rt_16550_rx_interrupt`: the count of characters, `lsr` and the context. `none`: the
-- device still has a character when `chars` ends.
unfoldable pub rx_loop : ℕ → List (ℕ × ℕ) → ℕ → ℕ → Context → Option (ℕ × ℕ × Context)
rx_loop timestamp [] rbytes lsr ctx = none
rx_loop timestamp ((c, reg) ∷ chars) rbytes lsr ctx =
    let lsr' = next_lsr ctx.in_npend reg lsr in
    let ctx' = put_char timestamp c ctx in
    let rest = rx_loop timestamp chars (rbytes + 1) lsr' ctx' in
    if testbits lsr' lsr_data then rest else some (rbytes + 1, lsr', ctx')

unfoldable pub rt_16550_rx_interrupt : ℕ → List (ℕ × ℕ) → Context → Option (ℕ × Context)
rt_16550_rx_interrupt timestamp chars ctx = elim (rx_loop timestamp chars 0 0 ctx) [
  | none ↦ none
  | some (rbytes, lsr, ctx') ↦ some (rbytes, record ctx' { status = bit_or ctx'.status lsr })
]

-- One character of the output ring goes to the device.
unfoldable pub send_char : Context → Context
send_char ctx =
    let ctx' = outb (ctx.out_buf ctx.out_head) thr ctx in
    record ctx' { out_head = wrap (ctx.out_head + 1); out_npend = ctx.out_npend - 1 }

-- `rt_16550_tx_interrupt` with `count` characters at most (the device's `tx_fifo`).
unfoldable pub rt_16550_tx_interrupt : ℕ → Context → Context
rt_16550_tx_interrupt zero ctx = ctx
rt_16550_tx_interrupt (suc count) ctx =
    let rest = rt_16550_tx_interrupt count (send_char ctx) in
    if ctx.out_npend == 0 then ctx else rest

unfoldable pub rt_16550_stat_interrupt : ℕ → Context → Context
rt_16550_stat_interrupt reg ctx = record ctx { status = bit_or ctx.status (bit_and reg lsr_errors) }

-- The events that a change of the modem lines raises.
unfoldable pub modem_events : ℕ → ℕ → ℕ
modem_events modem events =
    let high = if testbits modem (modem * 16) then bit_or events event_modemhi else events in
    if testbits (bit_xor modem 0xF0) (modem * 16) then bit_or high event_modemlo else high

-- What the loop of the handler carries: `rbytes`, `events` and whether a round was handled.
pub record Served : Type 0 where
  pub rbytes : ℕ
  pub events : ℕ
  pub handled : Bool
  pub ctx : Context

-- A round whose IIR, masked, names no end of the interrupts.
unfoldable pub serve_poll : ℕ → ℕ → ℕ → Poll → Served → Option Served
serve_poll tx_fifo timestamp iir p s =
    if iir == iir_rx
    then elim (rt_16550_rx_interrupt timestamp p.chars s.ctx) [
      | none ↦ none
      | some (rbytes, ctx) ↦ some (record {
        rbytes = s.rbytes + rbytes;
        events = bit_or s.events event_rxpend;
        handled = true;
        ctx = ctx;
      })
    ]
    else if iir == iir_stat
    then some (record s { handled = true; ctx = rt_16550_stat_interrupt p.lsr s.ctx })
    else if iir == iir_tx
    then some (record s { handled = true; ctx = rt_16550_tx_interrupt tx_fifo s.ctx })
    else if iir == iir_modem
    then some (record s { handled = true; events = modem_events p.msr s.events })
    else some (record s { handled = true })

-- The loop over the pending causes; `none`: the device has one when the polls end.
unfoldable pub serve_polls : ℕ → ℕ → List Poll → Served → Option Served
serve_polls tx_fifo timestamp [] s = none
serve_polls tx_fifo timestamp (p ∷ ps) s =
    let iir = bit_and p.iir iir_mask in
    if testbits iir iir_pirq then some s else elim (serve_poll tx_fifo timestamp iir p s) [
      | none ↦ none
      | some s' ↦ serve_polls tx_fifo timestamp ps s'
    ]

-- The parts behind the loop: the reader is woken when it has enough or there is an error ...
unfoldable pub wake_reader : ℕ → Context → Context
wake_reader rbytes ctx = elim ctx.in_nwait [
  | negsuc n ↦ ctx
  | pos n ↦
      if n == 0
      then ctx
      else if leb n rbytes || not (ctx.status == 0)
      then record ctx { in_nwait = pos 0; in_event = event_signal ctx.in_event }
      else record ctx { in_nwait = pos (n - rbytes) }
]

-- ... an error masks the line status interrupt ...
unfoldable pub mask_errors : Context → Context
mask_errors ctx =
    if ctx.status == 0 then ctx else record ctx { ier_status = bit_clear ctx.ier_status ier_stat }

-- ... the waiter for events is told ...
unfoldable pub tell_events : ℕ → ℕ → Context → Context
tell_events timestamp events ctx =
    if testbits events ctx.config.event_mask
    then record ctx {
      last_timestamp = timestamp;
      ioc_events = events;
      ioc_event = if ctx.ioc_events == 0 then event_signal ctx.ioc_event else ctx.ioc_event;
    }
    else ctx

-- ... and the writer, when all is sent.
unfoldable pub wake_writer : Context → Context
wake_writer ctx =
    if testbits ctx.ier_status ier_tx && (ctx.out_npend == 0)
    then record ctx {
      ier_status = bit_clear ctx.ier_status ier_tx;
      out_event = event_signal ctx.out_event;
    }
    else ctx

unfoldable pub after_polls : ℕ → Served → Context
after_polls timestamp s =
    let ctx = wake_reader s.rbytes s.ctx in
    let events = if ctx.status == 0 then s.events else bit_or s.events event_errpend in
    let ctx' = wake_writer (tell_events timestamp events (mask_errors ctx)) in
    outb ctx'.ier_status ier ctx'

-- `rt_16550_interrupt`: whether the interrupt was handled, and the context.
unfoldable pub rt_16550_interrupt : ℕ → ℕ → List Poll → Context → Option (Bool × Context)
rt_16550_interrupt tx_fifo timestamp polls ctx =
    let start : Served = record { rbytes = 0; events = 0; handled = false; ctx = ctx } in
    elim (serve_polls tx_fifo timestamp polls start) [
      | none ↦ none
      | some s ↦ some (s.handled, after_polls timestamp s)
    ]
