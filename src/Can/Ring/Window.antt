-- ===== src/Can/Ring/Window.antt =====
-- The ring buffer of a socket as a byte queue.
use rtdm_native.Prelude.{
  ℕ, ◌+◌, ◌-◌, ◌%◌, ◌≤◌, ◌<◌, ◌≡◌, ap, ◌∙◌, inl, inr, arith, Bool-cases, ltb, List, length,
}
use rtdm_native.Prelude.Bits.{bit_and_low}
use rtdm_native.Memory.Window.{
  window, put_bytes, memcpy_from-window, memcpy_to-put_bytes, memcpy_to_split, memcpy_from_split,
}
use rtdm_native.Can.Types.{Config, rtcan_rxbuf_size}
use rtdm_native.Can.Ring.{wrap_index, copy_in, memcpy_from_ring_buf}

pub wrap_index-mod : (c : Config) (i : ℕ) → wrap_index c i ≡ i % rtcan_rxbuf_size c
unfolding wrap_index
wrap_index-mod c i = bit_and_low c.rxbuf_log i

module _ (c : Config) where
  abbrev size : ℕ
  size = rtcan_rxbuf_size c

  pub copy_in-put_bytes :
      (buf : ℕ → ℕ) (tail : ℕ) (bytes : List ℕ)
      → tail < size
      → length bytes ≤ size
      → copy_in c buf tail bytes ≡ put_bytes size buf tail bytes
  unfolding copy_in
  copy_in-put_bytes buf tail bytes lt fits = elim (Bool-cases (ltb size (tail + length bytes))) [
    | inl e ↦ rw e (
        memcpy_to_split size (size - tail) buf tail bytes (omega arith) (ground arith) fits
          (omega arith))
    | inr e ↦ rw e (memcpy_to-put_bytes size buf tail bytes lt (ground arith))
  ]

  pub memcpy_from_ring_buf-window :
      (buf : ℕ → ℕ) (index len : ℕ)
      → index < size
      → len ≤ size
      → memcpy_from_ring_buf c buf index len ≡ (window size buf index len, (index + len) % size)
  unfolding memcpy_from_ring_buf
  memcpy_from_ring_buf-window buf index len lt fits = elim (Bool-cases (ltb size (index + len))) [
    | inl e ↦
        rw (e, wrap_index-mod c (index + len))
          (ap (λ l. (l, (index + len) % size))
            (memcpy_from_split size buf index (size - index) (len - (size - index)) (omega arith)
                (omega arith) (omega arith)
              ∙ ap (window size buf index) (ground arith)))
    | inr e ↦
        rw (e, wrap_index-mod c (index + len))
          (ap (λ l. (l, (index + len) % size))
            (memcpy_from-window size buf index len lt (ground arith)))
  ]
