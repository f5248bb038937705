-- ===== src/Can/Ring/Frame.antt =====
-- A socket's ring buffer holds a queue of bytes: what is put into it and what is read out of it.
use rtdm_native.Prelude.{
  ℕ, ◌+◌, ◌-◌, ◌%◌, ◌≤◌, ◌<◌, ◌≡◌, refl, ap, ◌∙◌, sym, inl, inr, ◌⊎◌, true, false, arith, subst,
  Bool-cases, ltb, ltb→lt, if◌then◌else◌, List, [], ◌∷◌, ◌++◌, take, length, length-append,
  length-take,
}
use rtdm_native.Can.Types.{Config, rtcan_rxbuf_size, Socket, RbFrame}
use rtdm_native.Can.Ring.{
  wrap_index, copy_in, memcpy_from_ring_buf, put_frame, size_free, rb_frame_bytes,
}
use rtdm_native.Can.Ring.Window.{wrap_index-mod, copy_in-put_bytes, memcpy_from_ring_buf-window}
use rtdm_native.Memory.Window.{window, put_bytes, window-add, length-window, window-put_bytes}
use rtdm_native.Rtdm.Sem.{Sem, sem_up}
use native.Mathlib.Nat.{mod-lt, mod-add-mod, mod-eq_of_lt, mod-eq-sub-mod}
use native.Mathlib.Decide.{dec_lt}

-- Two ways to split one list, the first parts of one length.
pub split_unique {ℓ} :
    {A : Type ℓ} (xs ys us vs : List A)
    → length xs ≡ length us
    → xs ++ ys ≡ us ++ vs
    → (xs ≡ us) × (ys ≡ vs)
split_unique [] ys [] vs h e = (refl, e)
split_unique [] ys (u ∷ us) vs h e = absurd (omega arith)
split_unique (x ∷ xs) ys [] vs h e = absurd (omega arith)
split_unique (x ∷ xs) ys (u ∷ us) vs h e = ground (arith, split_unique xs ys us vs (omega arith))

module _ (c : Config) where
  abbrev size : ℕ
  size = rtcan_rxbuf_size c

  -- From index `i` on the buffer has the bytes `xs`, up to `stop`.
  pub record Holds (buf : ℕ → ℕ) (stop i : ℕ) (xs : List ℕ) : Type 0 where
    pub start : i < size
    pub fits : length xs ≤ size
    pub stops : stop ≡ (i + length xs) % size
    pub bytes : window size buf i (length xs) ≡ xs

  -- The ring buffer of `s` is the queue `xs`: it goes from `recv_head` to `recv_tail`, and
  -- at least one byte is free.
  pub record Queue (s : Socket) (xs : List ℕ) : Type 0 where
    pub holds : Holds s.recv_buf s.recv_tail s.recv_head xs
    pub room : length xs < size

  -- What stands behind the first `length xs` bytes.
  pub Holds-append :
      {buf : ℕ → ℕ} {stop i : ℕ} (xs ys : List ℕ)
      → Holds buf stop i (xs ++ ys)
      → (window size buf i (length xs) ≡ xs) × Holds buf stop ((i + length xs) % size) ys
  Holds-append {buf} {stop} {i} xs ys h = (
    parts.0,
    record {
      start = mod-lt (i + length xs) (omega (arith, h.start));
      fits = omega (arith, h.fits, length-append xs ys);
      stops = h.stops ∙ rw (length-append, mod-add-mod) (ap (λ k. k % size) (omega arith));
      bytes = parts.1;
    },
  )
    where
      whole :
          window size buf i (length xs) ++ window size buf ((i + length xs) % size) (length ys)
          ≡ xs ++ ys
      whole =
          sym (window-add size buf i (length xs) (length ys) h.start)
          ∙ ap (window size buf i) (sym (length-append xs ys))
          ∙ h.bytes

      parts :
          (window size buf i (length xs) ≡ xs)
          × (window size buf ((i + length xs) % size) (length ys) ≡ ys)
      parts = split_unique _ _ xs ys (length-window size buf i (length xs)) whole

  -- MEMCPY_FROM_RING_BUF reads the first bytes and stops behind them.
  pub read_bytes :
      {buf : ℕ → ℕ} {stop i : ℕ} (xs ys : List ℕ)
      → Holds buf stop i (xs ++ ys)
      → (memcpy_from_ring_buf c buf i (length xs) ≡ (xs, (i + length xs) % size))
        × Holds buf stop ((i + length xs) % size) ys
  read_bytes {buf} {stop} {i} xs ys h = (
    memcpy_from_ring_buf-window c buf i (length xs) h.start
          (omega (arith, h.fits, length-append xs ys))
        ∙ ap (λ l. (l, (i + length xs) % size)) (Holds-append xs ys h).0,
    (Holds-append xs ys h).1,
  )

  pub read_byte :
      {buf : ℕ → ℕ} {stop i : ℕ} (b : ℕ) (ys : List ℕ)
      → Holds buf stop i (b ∷ ys)
      → (buf i ≡ b) × Holds buf stop (wrap_index c (i + 1)) ys
  read_byte {buf} {stop} {i} b ys h = (
    ground (arith, h.bytes),
    record {
      start = rw wrap_index-mod (mod-lt (i + 1) (omega (arith, h.start)));
      fits = omega (arith, h.fits);
      stops = h.stops ∙ rw (wrap_index-mod, mod-add-mod) (ap (λ k. k % size) (omega arith));
      bytes = rw wrap_index-mod (ground (arith, h.bytes));
    },
  )

  round_once :
      (h n : ℕ)
      → h < size
      → n < size
      → ((h + n < size) × ((h + n) % size ≡ h + n))
        ⊎ ((size ≤ h + n) × ((h + n) % size ≡ h + n - size))
  round_once h n p q = elim (dec_lt (h + n) size) [
    | yes l ↦ inl (l, mod-eq_of_lt l)
    | no l ↦ inr (omega arith, mod-eq-sub-mod (omega arith) ∙ mod-eq_of_lt (omega arith))
  ]

  size_free-Queue : (s : Socket) {xs : List ℕ} → Queue s xs → size_free c s ≡ size - length xs
  unfolding size_free
  size_free-Queue s {xs} q =
      ground (arith, q.holds.stops, round_once s.recv_head (length xs) q.holds.start q.room)

  -- A frame that fits is queued behind what is there, and one that does not changes no byte.
  abbrev pub queued : List ℕ → List ℕ → List ℕ
  queued xs ys = if ltb (length xs + length ys) size then xs ++ ys else xs

  -- The buffer and the tail after a copy of `ys` that fits.
  Queue-append :
      (s : Socket) (xs ys : List ℕ) (sem : Sem)
      → length xs + length ys < size
      → Queue s xs
      → Queue
          (record s {
            recv_buf = copy_in c s.recv_buf s.recv_tail ys;
            recv_tail = wrap_index c (s.recv_tail + length ys);
            recv_sem = sem;
          })
          (xs ++ ys)
  Queue-append s xs ys sem less q = record {
    holds = record {
      start = q.holds.start;
      fits = omega (arith, length-append xs ys);
      stops =
          rw (wrap_index-mod, q.holds.stops, length-append, mod-add-mod)
            (ap (λ k. k % size) (omega arith));
      bytes =
          rw (copied, length-append)
            (window-put_bytes size buf h (length xs) ys q.holds.start (omega arith)
              ∙ ap (λ l. l ++ ys) q.holds.bytes);
    };
    room = omega (arith, length-append xs ys);
  }
    where
      buf : ℕ → ℕ
      buf = s.recv_buf

      h : ℕ
      h = s.recv_head

      copied : copy_in c buf s.recv_tail ys ≡ put_bytes size buf ((h + length xs) % size) ys
      copied =
          ap (λ k. copy_in c buf k ys) q.holds.stops
          ∙ copy_in-put_bytes c buf ((h + length xs) % size) ys
              (mod-lt (h + length xs) (omega (arith, q.room))) (omega arith)

  -- The first `n` bytes of a frame, no more than it has, go behind the bytes that the ring holds if there is
  -- room for them, and otherwise the ring keeps the bytes that it holds; either way it is a queue
  -- with a free byte.
  pub put_frame-Queue :
      (s : Socket) (xs : List ℕ) (n : ℕ) (f : RbFrame)
      → n ≤ length (rb_frame_bytes f)
      → Queue s xs
      → Queue (put_frame c s n f) (queued xs (take n (rb_frame_bytes f)))
  unfolding put_frame
  put_frame-Queue s xs n f le q = elim (Bool-cases (ltb n (size_free c s))) [
    | inl e ↦
        rw (e, fits e)
          (subst
            (λ k.
              Queue
                (record s {
                  recv_buf = copy_in c s.recv_buf s.recv_tail ys;
                  recv_tail = wrap_index c (s.recv_tail + k);
                  recv_sem = sem_up s.recv_sem;
                })
                (xs ++ ys))
            size-ys (Queue-append s xs ys (sem_up s.recv_sem) (ltb→lt _ _ (fits e)) q))
    | inr e ↦ rw (e, full e) (record { holds = q.holds; room = q.room })
  ]
    where
      ys : List ℕ
      ys = take n (rb_frame_bytes f)

      size-ys : length ys ≡ n
      size-ys = omega (arith, length-take n (rb_frame_bytes f))

      fits : ltb n (size_free c s) ≡ true → ltb (length xs + length ys) size ≡ true
      fits e = ground (arith, size-ys, size_free-Queue s q, q.room)

      full : ltb n (size_free c s) ≡ false → ltb (length xs + length ys) size ≡ false
      full e = ground (arith, size-ys, size_free-Queue s q, q.room)
