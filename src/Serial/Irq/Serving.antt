-- ===== src/Serial/Irq/Serving.antt =====
-- The interrupt handler of the serial driver serves every cause that the device names.
use rtdm_native.Prelude.{
  ℕ, zero, suc, ◌+◌, ◌%◌, ◌/◌, ◌≤◌, ◌<◌, ◌≡◌, ◌≢◌, refl, ap, ◌∙◌, sym, inl, inr, arith, subst,
  bit_and, bit_or, true, false, Bool-cases, ltb, ◌==◌, List, [], ◌∷◌, ◌++◌, drop-empty, length,
  length-append, some,
}
use rtdm_native.Prelude.Bits.{bit_and_step, bit_or_step, bit_and_low, bit_and-zero, bit_clear}
use rtdm_native.Memory.{update}
use rtdm_native.Serial.Types.{
  Context, outb, wrap, testbits, lsr_data, event_rxpend, iir_pirq, iir_rx, iir_stat, iir_tx,
  iir_modem, iir_mask,
}
use rtdm_native.Serial.Queue.{IsQueue, InQueue, OutQueue, put-IsQueue, npend-length, drop-IsQueue}
use rtdm_native.Serial.Irq.{
  Poll, Served, put_char, next_lsr, rx_loop, rt_16550_rx_interrupt, send_char,
  rt_16550_tx_interrupt, rt_16550_stat_interrupt, modem_events, serve_poll, serve_polls,
}
use rtdm_native.Serial.Irq.Progress.{Progress, idle-Progress, both}
use mathlib.Core.List.{append-nil}

-- The characters of a burst: the first whose LSR has no RTSER_LSR_DATA is the last.
pub data Burst : List (ℕ × ℕ) → List ℕ → Type 0 where
  final :
      {c reg : ℕ} {chars : List (ℕ × ℕ)}
      → testbits reg lsr_data ≡ false
      → Burst ((c, reg) ∷ chars) (c ∷ [])
  more :
      {c reg : ℕ} {chars : List (ℕ × ℕ)} {cs : List ℕ}
      → testbits reg lsr_data ≡ true
      → Burst chars cs
      → Burst ((c, reg) ∷ chars) (c ∷ cs)

-- The characters that arrive while the handler polls, up to the poll that names no cause.
pub data Arrives : List Poll → List ℕ → Type 0 where
  idle :
      {p : Poll} {ps : List Poll}
      → testbits (bit_and p.iir iir_mask) iir_pirq ≡ true
      → Arrives (p ∷ ps) []
  burst :
      {p : Poll} {ps : List Poll} {cs ds : List ℕ}
      → bit_and p.iir iir_mask ≡ iir_rx
      → Burst p.chars cs
      → Arrives ps ds
      → Arrives (p ∷ ps) (cs ++ ds)
  other :
      {p : Poll} {ps : List Poll} {ds : List ℕ}
      → testbits (bit_and p.iir iir_mask) iir_pirq ≡ false
      → bit_and p.iir iir_mask ≢ iir_rx
      → Arrives ps ds
      → Arrives (p ∷ ps) ds

-- The flag that ends the loop is the device's.
low_bit : (x : ℕ) → bit_and x 1 ≡ x % 2
low_bit x = bit_and_low 1 x

device_flag : (x reg : ℕ) → bit_and (bit_or (bit_clear x 1) (bit_and reg 31)) 1 ≡ bit_and reg 1
device_flag x reg = ground (
  arith,
  low_bit (bit_or (bit_clear x 1) (bit_and reg 31)),
  low_bit reg,
  bit_or_step (bit_clear x 1) (bit_and reg 31),
  bit_and_step x 1,
  bit_and-zero (x / 2),
  bit_and_step reg 31,
)

pub next_lsr-data :
    (npend reg lsr : ℕ) → testbits (next_lsr npend reg lsr) lsr_data ≡ testbits reg lsr_data
unfolding next_lsr
next_lsr-data npend reg lsr = elim (Bool-cases (ltb 4096 (npend + 1))) [
  | inl e ↦ rw (e, device_flag (bit_or lsr 256) reg) refl
  | inr e ↦ rw (e, device_flag lsr reg) refl
]

put_char-Progress :
    (timestamp c : ℕ) (ctx : Context)
    → ctx.in_npend < 4096
    → Progress ctx (put_char timestamp c ctx) (c ∷ []) 0
unfolding put_char
put_char-Progress timestamp c ctx room = record {
  same_head = refl;
  same_tail = refl;
  count = ground arith;
  in_queue = λ xs q.
      subst
        (λ n.
          IsQueue (update ctx.in_buf ctx.in_tail c) ctx.in_head (wrap (ctx.in_tail + 1)) n
            (xs ++ c ∷ []))
        (ground arith) (put-IsQueue (c ∷ []) q (omega arith));
  out_queue = λ zs q. q;
}

put_char-in_nwait :
    (timestamp c : ℕ) (ctx : Context) → (put_char timestamp c ctx).in_nwait ≡ ctx.in_nwait
unfolding put_char
put_char-in_nwait timestamp c ctx = refl

rx_loop-Progress :
    {chars : List (ℕ × ℕ)} {cs : List ℕ} (timestamp rbytes lsr : ℕ) (ctx : Context)
    → Burst chars cs
    → ctx.in_npend + length cs ≤ 4096
    → (l : ℕ) × (ctx' : Context) × (rx_loop timestamp chars rbytes lsr ctx
        ≡ some (rbytes + length cs, l, ctx'))
      × Progress ctx ctx' cs 0
      × (ctx'.in_nwait ≡ ctx.in_nwait)
unfolding rx_loop
rx_loop-Progress timestamp rbytes lsr ctx (final {c = c} {reg = reg} end) room = (
  next_lsr ctx.in_npend reg lsr,
  put_char timestamp c ctx,
  rw (next_lsr-data ctx.in_npend reg lsr, end) refl,
  put_char-Progress timestamp c ctx (omega arith),
  put_char-in_nwait timestamp c ctx,
)
rx_loop-Progress timestamp rbytes lsr ctx (more {c = c} {reg = reg} {cs = cs} on rest) room =
    let ctx' = put_char timestamp c ctx in
    let step = put_char-Progress timestamp c ctx (omega arith) in
    let (l, end, e, p, w) =
      rx_loop-Progress timestamp (rbytes + 1) (next_lsr ctx.in_npend reg lsr) ctx' rest
        (omega (arith, step.count)) in
    (
      l,
      end,
      rw (next_lsr-data ctx.in_npend reg lsr, on, e) (ap (λ n. some (n, l, end)) (omega arith)),
      both step p,
      w ∙ put_char-in_nwait timestamp c ctx,
    )

rt_16550_rx_interrupt-Progress :
    {chars : List (ℕ × ℕ)} {cs : List ℕ} (timestamp : ℕ) (ctx : Context)
    → Burst chars cs
    → ctx.in_npend + length cs ≤ 4096
    → (ctx' : Context) × (rt_16550_rx_interrupt timestamp chars ctx ≡ some (length cs, ctx'))
      × Progress ctx ctx' cs 0
      × (ctx'.in_nwait ≡ ctx.in_nwait)
unfolding rt_16550_rx_interrupt
rt_16550_rx_interrupt-Progress timestamp ctx b room =
    let (l, ctx', e, p, w) = rx_loop-Progress timestamp 0 0 ctx b room in
    let finished : Context = record ctx' { status = bit_or ctx'.status l } in
    (
      finished,
      rw (e, rt_16550_rx_interrupt) (ap (λ n. some (n, finished)) (omega arith)),
      record {
        same_head = p.same_head;
        same_tail = p.same_tail;
        count = p.count;
        in_queue = p.in_queue;
        out_queue = p.out_queue;
      },
      w,
    )

pub send_char-Progress : (ctx : Context) → 0 < ctx.out_npend → Progress ctx (send_char ctx) [] 1
unfolding send_char outb
send_char-Progress ctx some_left = record {
  same_head = refl;
  same_tail = refl;
  count = omega arith;
  in_queue = λ xs q. subst (InQueue (send_char ctx)) (sym (append-nil xs)) q;
  out_queue = λ zs q. drop-IsQueue 1 q some_left;
}

nothing_sent : (count : ℕ) (ctx : Context) → ctx.out_npend ≡ 0 → Progress ctx ctx [] count
nothing_sent count ctx empty =
    let p = idle-Progress ctx in
    record {
      same_head = refl;
      same_tail = refl;
      count = p.count;
      in_queue = p.in_queue;
      out_queue = λ zs q.
          subst (OutQueue ctx) (drop-empty count zs (omega (arith, empty, npend-length q))) q;
    }

send_char-in_nwait : (ctx : Context) → (send_char ctx).in_nwait ≡ ctx.in_nwait
unfolding send_char outb
send_char-in_nwait ctx = refl

pub rt_16550_tx_interrupt-Progress :
    (count : ℕ) (ctx : Context)
    → Progress ctx (rt_16550_tx_interrupt count ctx) [] count
      × ((rt_16550_tx_interrupt count ctx).in_nwait ≡ ctx.in_nwait)
unfolding rt_16550_tx_interrupt
rt_16550_tx_interrupt-Progress zero ctx = (idle-Progress ctx, refl)
rt_16550_tx_interrupt-Progress (suc count) ctx = elim (Bool-cases (ctx.out_npend == 0)) [
  | inl e ↦ rw e (nothing_sent (suc count) ctx (ground (arith, e)), refl)
  | inr e ↦
      let (p, w) = rt_16550_tx_interrupt-Progress count (send_char ctx) in
      rw e (
        subst (Progress ctx (rt_16550_tx_interrupt count (send_char ctx)) []) (omega arith)
            (both (send_char-Progress ctx (ground (arith, e))) p),
        w ∙ send_char-in_nwait ctx,
      )
]

status-Progress : (ctx : Context) (v : ℕ) → Progress ctx (record ctx { status = v }) [] 0
status-Progress ctx v =
    let p = idle-Progress ctx in
    record {
      same_head = refl;
      same_tail = refl;
      count = p.count;
      in_queue = p.in_queue;
      out_queue = p.out_queue;
    }

-- A round that names a cause other than a reception.
serve_poll-other :
    (tx_fifo timestamp : ℕ) (p : Poll) (s : Served)
    → bit_and p.iir iir_mask ≢ iir_rx
    → (s' : Served) × (sent : ℕ) × (serve_poll tx_fifo timestamp (bit_and p.iir iir_mask) p s
        ≡ some s')
      × (s'.rbytes ≡ s.rbytes)
      × Progress s.ctx s'.ctx [] sent
      × (s'.ctx.in_nwait ≡ s.ctx.in_nwait)
unfolding serve_poll rt_16550_stat_interrupt
serve_poll-other tx_fifo timestamp p s ne =
    let iir = bit_and p.iir iir_mask in
    let same : Progress s.ctx s.ctx [] 0 = idle-Progress s.ctx in
    let (t, w) = rt_16550_tx_interrupt-Progress tx_fifo s.ctx in
    elim (Bool-cases (iir == iir_rx)) [
      | inl e ↦ absurd (ground (arith, e, ne))
      | inr r ↦ elim (Bool-cases (iir == iir_stat)) [
        | inl e ↦ (
          record s { handled = true; ctx = rt_16550_stat_interrupt p.lsr s.ctx },
          0,
          rw (r, e) refl,
          refl,
          status-Progress s.ctx _,
          refl,
        )
        | inr st ↦ elim (Bool-cases (iir == iir_tx)) [
          | inl e ↦ (
            record s { handled = true; ctx = rt_16550_tx_interrupt tx_fifo s.ctx },
            tx_fifo,
            rw (r, st, e) refl,
            refl,
            t,
            w,
          )
          | inr tx ↦ elim (Bool-cases (iir == iir_modem)) [
            | inl e ↦ (
              record s { handled = true; events = modem_events p.msr s.events },
              0,
              rw (r, st, tx, e) refl,
              refl,
              same,
              refl,
            )
            | inr m ↦ (record s { handled = true }, 0, rw (r, st, tx, m) refl, refl, same, refl)
          ]
        ]
      ]
    ]

-- The loop of the handler ends, and counts the characters that arrive.
pub serve_polls-Progress :
    {polls : List Poll} {cs : List ℕ} (tx_fifo timestamp : ℕ) (s : Served)
    → Arrives polls cs
    → s.ctx.in_npend + length cs ≤ 4096
    → (s' : Served) × (sent : ℕ) × (serve_polls tx_fifo timestamp polls s ≡ some s')
      × (s'.rbytes ≡ s.rbytes + length cs)
      × Progress s.ctx s'.ctx cs sent
      × (s'.ctx.in_nwait ≡ s.ctx.in_nwait)
unfolding serve_polls serve_poll
serve_polls-Progress tx_fifo timestamp s (idle stop) room =
    (s, 0, rw stop refl, omega arith, idle-Progress s.ctx, refl)
serve_polls-Progress tx_fifo timestamp s (burst {cs = cs} {ds = ds} rx b rest) room =
    let (ctx', e, p, w) =
      rt_16550_rx_interrupt-Progress timestamp s.ctx b (omega (arith, room, length-append cs ds)) in
    let next : Served = record {
      rbytes = s.rbytes + length cs;
      events = bit_or s.events event_rxpend;
      handled = true;
      ctx = ctx';
    } in
    let (s', sent, e', n, p', w') =
      serve_polls-Progress tx_fifo timestamp next rest
        (omega (arith, room, p.count, length-append cs ds)) in
    (s', 0 + sent, rw (rx, e) e', omega (arith, n, length-append cs ds), both p p', w' ∙ w)
serve_polls-Progress tx_fifo timestamp s (other {p = p} on ne rest) room =
    let (next, sent, e, n, pr, w) = serve_poll-other tx_fifo timestamp p s ne in
    let (s', sent', e', n', pr', w') =
      serve_polls-Progress tx_fifo timestamp next rest (omega (arith, room, pr.count)) in
    (s', sent + sent', rw (on, e) e', omega (arith, n, n'), both pr pr', w' ∙ w)
