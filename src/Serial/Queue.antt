-- ===== src/Serial/Queue.antt =====
-- The two rings of ksrc/drivers/serial/16550A.c as queues of bytes.
use rtdm_native.Prelude.{
  ℕ, ◌+◌, ◌-◌, ◌%◌, ◌≤◌, ◌<◌, ◌≡◌, ap, ◌∙◌, sym, arith, List, ◌++◌, take, drop, length, take-append,
  drop-append,
}
use rtdm_native.Prelude.Bits.{bit_and_low}
use rtdm_native.Memory.Window.{window, put_bytes, window-add, length-window, window-put_bytes}
use rtdm_native.Serial.Types.{Context, wrap}
use native.Mathlib.Nat.{mod-lt, mod-add-mod}

abbrev size : ℕ
size = 4096

-- `npend` bytes from `head` on are the queue, and `tail` is the index behind them.
pub record IsQueue (buf : ℕ → ℕ) (head tail npend : ℕ) (xs : List ℕ) : Type 0 where
  pub head_small : head < 4096
  pub fits : npend ≤ 4096
  pub behind : tail ≡ (head + npend) % 4096
  pub bytes : window 4096 buf head npend ≡ xs

abbrev pub InQueue : Context → List ℕ → Type 0
InQueue ctx xs = IsQueue ctx.in_buf ctx.in_head ctx.in_tail ctx.in_npend xs

abbrev pub OutQueue : Context → List ℕ → Type 0
OutQueue ctx xs = IsQueue ctx.out_buf ctx.out_head ctx.out_tail ctx.out_npend xs

pub wrap-mod : (i : ℕ) → wrap i ≡ i % 4096
unfolding wrap
wrap-mod i = bit_and_low 12 i

module _ {buf : ℕ → ℕ} {head tail npend : ℕ} {xs : List ℕ} where
  pub npend-length : IsQueue buf head tail npend xs → npend ≡ length xs
  npend-length q = sym (length-window size buf head npend) ∙ ap length q.bytes

  pub put-IsQueue :
      (ys : List ℕ)
      → IsQueue buf head tail npend xs
      → npend + length ys ≤ 4096
      → IsQueue
          (put_bytes 4096 buf tail ys)
          head
          (wrap (tail + length ys))
          (npend + length ys)
          (xs ++ ys)
  put-IsQueue ys q room = record {
    head_small = q.head_small;
    fits = room;
    behind =
        rw (wrap-mod (tail + length ys), q.behind, mod-add-mod) (ap (λ k. k % size) (omega arith));
    bytes =
        ap (λ t. window size (put_bytes size buf t ys) head (npend + length ys)) q.behind
        ∙ window-put_bytes size buf head npend ys q.head_small room
        ∙ ap (λ l. l ++ ys) q.bytes;
  }

  module _ (k : ℕ) (q : IsQueue buf head tail npend xs) (some_of : k ≤ npend) where
    split_bytes : window 4096 buf head k ++ window 4096 buf ((head + k) % 4096) (npend - k) ≡ xs
    split_bytes =
        sym (window-add size buf head k (npend - k) q.head_small)
        ∙ ap (window size buf head) (omega arith)
        ∙ q.bytes

    pub window-take : window 4096 buf head k ≡ take k xs
    window-take =
        sym (take-append k (window size buf head k) _ (length-window size buf head k))
        ∙ ap (take k) split_bytes

    pub drop-IsQueue : IsQueue buf (wrap (head + k)) tail (npend - k) (drop k xs)
    drop-IsQueue = rw (wrap-mod (head + k)) (record {
      head_small = mod-lt (head + k) (omega arith);
      fits = omega (arith, q.fits);
      behind = q.behind ∙ rw mod-add-mod (ap (λ n. n % size) (omega arith));
      bytes =
          sym (drop-append k (window size buf head k) _ (length-window size buf head k))
          ∙ ap (drop k) split_bytes;
    })
