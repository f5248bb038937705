-- ===== src/Serial/Irq/Overrun.antt =====
-- What a full input ring of the serial driver does with one more character.
use rtdm_native.Prelude.{
  ℕ, zero, suc, ◌+◌, ◌%◌, ◌≤◌, ◌<◌, ◌≡◌, ◌≢◌, refl, ap, ap₂, ◌∙◌, sym, arith, bit_or, false, List,
  [], ◌∷◌, some,
}
use rtdm_native.Memory.{update}
use rtdm_native.Memory.Window.{window, steps-ne}
use rtdm_native.Serial.Types.{Context, testbits, lsr_data}
use rtdm_native.Serial.Queue.{InQueue, wrap-mod}
use rtdm_native.Serial.Irq.{put_char, next_lsr, rx_loop, rt_16550_rx_interrupt}
use rtdm_native.Serial.Irq.Serving.{next_lsr-data}
use native.Mathlib.Nat.{mod-add-mod}

-- A byte at index `h` is not among the bytes behind it, up to a whole round.
window-past :
    (buf : ℕ → ℕ) (h c m n : ℕ)
    → h < 4096
    → suc m + n ≤ 4096
    → window 4096 (update buf h c) ((h + suc m) % 4096) n ≡ window 4096 buf ((h + suc m) % 4096) n
window-past buf h c m zero lt fits = refl
window-past buf h c m (suc n) lt fits =
    ap₂ ◌∷◌ (ground (arith, steps-ne 4096 h m lt (omega arith))) (
      ap (λ i. window 4096 (update buf h c) i n) next_index
      ∙ window-past buf h c (suc m) n lt (omega arith)
      ∙ ap (λ i. window 4096 buf i n) (sym next_index))
  where
    next_index : ((h + suc m) % 4096 + 1) % 4096 ≡ (h + suc (suc m)) % 4096
    next_index = rw mod-add-mod (ap (λ k. k % 4096) (omega arith))

-- A ring with `n` bytes: the byte put at its head replaces the first.
window-head :
    (buf : ℕ → ℕ) (h c x n : ℕ) (xs : List ℕ)
    → h < 4096
    → n ≤ 4096
    → window 4096 buf h n ≡ x ∷ xs
    → window 4096 (update buf h c) h n ≡ c ∷ xs
window-head buf h c x zero xs lt fits e = absurd (ground (arith, e))
window-head buf h c x (suc n) xs lt fits e =
    ap₂ ◌∷◌ (ground arith) (window-past buf h c 0 n lt (omega arith) ∙ ground (arith, e))

last_char :
    (timestamp c reg : ℕ) (ctx : Context)
    → testbits reg lsr_data ≡ false
    → rx_loop timestamp ((c, reg) ∷ []) 0 0 ctx
      ≡ some (1, next_lsr ctx.in_npend reg 0, put_char timestamp c ctx)
unfolding rx_loop
last_char timestamp c reg ctx end = rw (next_lsr-data ctx.in_npend reg 0, end) refl

module _ (timestamp c : ℕ) (ctx : Context) (x : ℕ) (xs : List ℕ) (q : InQueue ctx (x ∷ xs))
    (full : ctx.in_npend ≡ 4096) where
  -- The queue goes all round the ring.
  full_round : ctx.in_tail ≡ ctx.in_head
  full_round = omega (arith, q.behind, full, q.head_small)

  full_count : (put_char timestamp c ctx).in_npend ≡ ctx.in_npend
  unfolding put_char
  full_count = ground (arith, full)

  full_window :
      let ctx' = put_char timestamp c ctx in
      window 4096 ctx'.in_buf ctx'.in_head ctx'.in_npend ≡ c ∷ xs
  unfolding put_char
  full_window =
      ap (window 4096 (update ctx.in_buf ctx.in_tail c) ctx.in_head) full_count
      ∙ ap (λ t. window 4096 (update ctx.in_buf t c) ctx.in_head ctx.in_npend) full_round
      ∙ window-head ctx.in_buf ctx.in_head c x ctx.in_npend xs q.head_small q.fits q.bytes

  full_tail :
      let ctx' = put_char timestamp c ctx in ctx'.in_tail ≢ (ctx'.in_head + ctx'.in_npend) % 4096
  unfolding put_char
  full_tail e =
      omega (arith, e, full, full_count, full_round, q.head_small, wrap-mod (ctx.in_tail + 1))

-- The character that does not fit replaces the oldest one and is read in its place, before all that came
-- earlier; from then on the end of the queue is not where the next character goes.
pub rt_16550_rx_interrupt-overruns :
    (timestamp c reg : ℕ) (ctx : Context) (x : ℕ) (xs : List ℕ)
    → InQueue ctx (x ∷ xs)
    → ctx.in_npend ≡ 4096
    → testbits reg lsr_data ≡ false
    → (ctx' : Context) × (rt_16550_rx_interrupt timestamp ((c, reg) ∷ []) ctx ≡ some (1, ctx'))
      × (window 4096 ctx'.in_buf ctx'.in_head ctx'.in_npend ≡ c ∷ xs)
      × (ctx'.in_tail ≢ (ctx'.in_head + ctx'.in_npend) % 4096)
unfolding rt_16550_rx_interrupt
rt_16550_rx_interrupt-overruns timestamp c reg ctx x xs q full end = (
  record (put_char timestamp c ctx) {
    status = bit_or (put_char timestamp c ctx).status (next_lsr ctx.in_npend reg 0);
  },
  rw (last_char timestamp c reg ctx end, rt_16550_rx_interrupt) refl,
  full_window timestamp c ctx x xs q full,
  full_tail timestamp c ctx x xs q full,
)
