-- ===== src/Serial/Irq/Transmit.antt =====
-- The transmission of the serial driver: the interrupt sends the output queue from its head.
use rtdm_native.Prelude.{
  ℕ, zero, suc, ◌%◌, ◌≡◌, ap, ◌∙◌, sym, arith, positive-ne, zero-eq, List, [], ◌∷◌, ◌++◌, take,
  drop,
}
use rtdm_native.Serial.Types.{Context, Write, thr, outb}
use rtdm_native.Serial.Queue.{OutQueue, npend-length, window-take}
use rtdm_native.Serial.Irq.{send_char, rt_16550_tx_interrupt}
use rtdm_native.Serial.Irq.Serving.{send_char-Progress, rt_16550_tx_interrupt-Progress}
use mathlib.Core.List.{append-nil, append_assoc, map}

-- A byte written to the transmit holding register.
abbrev pub sent_byte : ℕ → Write
sent_byte b = (b % 256, thr)

send_char-writes :
    (ctx : Context) (z : ℕ) (zs : List ℕ)
    → OutQueue ctx (z ∷ zs)
    → (send_char ctx).writes ≡ ctx.writes ++ sent_byte z ∷ []
unfolding send_char outb
send_char-writes ctx z zs q =
    ap (λ b. ctx.writes ++ sent_byte b ∷ [])
      (ground (arith, window-take 1 q (omega (arith, npend-length q))))

tx_writes :
    (count : ℕ) (ctx : Context) (zs : List ℕ)
    → OutQueue ctx zs
    → (rt_16550_tx_interrupt count ctx).writes ≡ ctx.writes ++ map sent_byte (take count zs)
unfolding rt_16550_tx_interrupt
tx_writes zero ctx zs q = sym (append-nil ctx.writes)
tx_writes (suc count) ctx [] q =
    rw (zero-eq ctx.out_npend (npend-length q)) (sym (append-nil ctx.writes))
tx_writes (suc count) ctx (z ∷ zs) q =
    rw (positive-ne ctx.out_npend (omega (arith, npend-length q))) (
      tx_writes count (send_char ctx) zs
        ((send_char-Progress ctx (omega (arith, npend-length q))).out_queue (z ∷ zs) q)
      ∙ ap (λ l. l ++ map sent_byte (take count zs)) (send_char-writes ctx z zs q)
      ∙ append_assoc ctx.writes (sent_byte z ∷ []) (map sent_byte (take count zs)))

-- One interrupt sends the first `count` bytes of the queue (or all, if there are fewer), in their order.
pub rt_16550_tx_interrupt-sends :
    (count : ℕ) (ctx : Context) (zs : List ℕ)
    → OutQueue ctx zs
    → ((rt_16550_tx_interrupt count ctx).writes ≡ ctx.writes ++ map sent_byte (take count zs))
      × OutQueue (rt_16550_tx_interrupt count ctx) (drop count zs)
rt_16550_tx_interrupt-sends count ctx zs q =
    (tx_writes count ctx zs q, (rt_16550_tx_interrupt-Progress count ctx).0.out_queue zs q)
