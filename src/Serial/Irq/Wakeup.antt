-- ===== src/Serial/Irq/Wakeup.antt =====
-- The interrupt of the serial driver as a whole: what arrives is queued, and the reader is woken.
use rtdm_native.Prelude.{
  ℕ, ◌+◌, ◌≤◌, ◌≡◌, refl, arith, subst, Bool, false, List, [], ◌++◌, length, some,
}
use rtdm_native.Serial.Types.{Context, outb, ier}
use rtdm_native.Serial.Irq.{
  Poll, Served, wake_reader, mask_errors, tell_events, wake_writer, after_polls, rt_16550_interrupt,
}
use rtdm_native.Serial.Irq.Progress.{Progress, idle-Progress, both}
use rtdm_native.Serial.Irq.Serving.{Arrives, serve_polls-Progress}
use mathlib.Core.List.{append-nil}

wake_reader-Progress : (rbytes : ℕ) (ctx : Context) → Progress ctx (wake_reader rbytes ctx) [] 0
unfolding wake_reader
wake_reader-Progress rbytes ctx = ground (arith, idle-Progress ctx)

mask_errors-Progress : (ctx : Context) → Progress ctx (mask_errors ctx) [] 0
unfolding mask_errors
mask_errors-Progress ctx = ground (arith, idle-Progress ctx)

tell_events-Progress :
    (timestamp events : ℕ) (ctx : Context) → Progress ctx (tell_events timestamp events ctx) [] 0
unfolding tell_events
tell_events-Progress timestamp events ctx = ground (arith, idle-Progress ctx)

wake_writer-Progress : (ctx : Context) → Progress ctx (wake_writer ctx) [] 0
unfolding wake_writer
wake_writer-Progress ctx = ground (arith, idle-Progress ctx)

outb-Progress : (ctx : Context) (v : ℕ) → Progress ctx (outb v ier ctx) [] 0
unfolding outb
outb-Progress ctx v = ground (arith, idle-Progress ctx)

after_polls-Progress : (timestamp : ℕ) (s : Served) → Progress s.ctx (after_polls timestamp s) [] 0
unfolding after_polls
after_polls-Progress timestamp s = both (wake_reader-Progress s.rbytes s.ctx) (
    both (mask_errors-Progress _) (
      both (tell_events-Progress timestamp _ _)
        (both (wake_writer-Progress _) (outb-Progress _ _))))

-- An interrupt in which `cs` arrives, with room for it, returns and queues it. The characters that it
-- sends go from the head of the output queue.
pub rt_16550_interrupt-queues :
    {polls : List Poll} {cs : List ℕ} (tx_fifo timestamp : ℕ) (ctx : Context)
    → Arrives polls cs
    → ctx.in_npend + length cs ≤ 4096
    → (handled : Bool) × (ctx' : Context) × (sent : ℕ) × (rt_16550_interrupt tx_fifo timestamp polls
          ctx
        ≡ some (handled, ctx'))
      × Progress ctx ctx' cs sent
unfolding rt_16550_interrupt
rt_16550_interrupt-queues {cs} tx_fifo timestamp ctx arrives room =
    let start : Served = record { rbytes = 0; events = 0; handled = false; ctx = ctx } in
    let (s, sent, e, n, p, w) = serve_polls-Progress tx_fifo timestamp start arrives room in
    let ctx' = after_polls timestamp s in
    (
      s.handled,
      ctx',
      sent,
      rw (e, rt_16550_interrupt) refl,
      subst (λ l. Progress ctx ctx' l sent) (append-nil cs)
          (subst (Progress ctx ctx' (cs ++ [])) (omega arith)
            (both p (after_polls-Progress timestamp s))),
    )

-- The parts behind the wakeup leave the reader's event and count alone.
abbrev SameWait : Context → Context → Type 0
SameWait ctx ctx' = (ctx'.in_event ≡ ctx.in_event) × (ctx'.in_nwait ≡ ctx.in_nwait)
