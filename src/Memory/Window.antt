-- ===== src/Memory/Window.antt =====
-- A ring of bytes as a queue: copies in one or two parts are steps round the ring. The ring buffers
-- of the CAN sockets and of the serial driver are such rings.
use rtdm_native.Prelude.{
  ℕ, zero, suc, ◌+◌, ◌-◌, ◌%◌, ◌≤◌, ◌<◌, ◌≡◌, ◌≢◌, refl, ap, ap₂, ◌∙◌, sym, arith, List, [], ◌∷◌,
  ◌++◌, take, drop, length,
}
use rtdm_native.Memory.{update, memcpy_to, memcpy_from}
use native.Mathlib.Nat.{mod-add-mod, mod-eq_of_lt, mod-eq-sub-mod, add-zero, mod-lt}
use native.Mathlib.Decide.{dec_lt}
use mathlib.Core.List.{append-nil, append_assoc}

module _ (size : ℕ) where
  -- The `n` bytes from index `h` on, going round at the end of the buffer.
  abbrev pub window : (ℕ → ℕ) → ℕ → ℕ → List ℕ
  window buf h zero = []
  window buf h (suc n) = buf h ∷ window buf ((h + 1) % size) n

  -- Bytes put one by one from index `i` on, going round at the end of the buffer.
  abbrev pub put_bytes : (ℕ → ℕ) → ℕ → List ℕ → ℕ → ℕ
  put_bytes buf i [] = buf
  put_bytes buf i (x ∷ xs) = put_bytes (update buf i x) ((i + 1) % size) xs

  pub length-window : (buf : ℕ → ℕ) (h n : ℕ) → length (window buf h n) ≡ n
  length-window buf h zero = refl
  length-window buf h (suc n) = ap suc (length-window buf ((h + 1) % size) n)

  regroup : (m n : ℕ) → suc m + n ≡ suc (m + n)
  regroup m n = omega arith

  later_step : (h n : ℕ) → (h + suc n) % size ≡ ((h + 1) % size + n) % size
  later_step h n = rw mod-add-mod (ap (λ k. k % size) (omega arith))

  pub window-add :
      (buf : ℕ → ℕ) (h m n : ℕ)
      → h < size
      → window buf h (m + n) ≡ window buf h m ++ window buf ((h + m) % size) n
  window-add buf h zero n lt = rw (add-zero, mod-eq_of_lt lt) (ap (window buf h) (omega arith))
  window-add buf h (suc m) n lt =
      ap (window buf h) (regroup m n)
      ∙ ap (◌∷◌ (buf h)) (
          window-add buf ((h + 1) % size) m n (mod-lt (h + 1) (omega arith))
          ∙ ap (λ k. window buf ((h + 1) % size) m ++ window buf k n) (sym (later_step h m)))

  -- A copy that ends within the buffer.
  pub memcpy_from-window :
      (buf : ℕ → ℕ) (i n : ℕ) → i < size → i + n ≤ size → memcpy_from buf i n ≡ window buf i n
  unfolding memcpy_from
  memcpy_from-window buf i zero lt fits = refl
  memcpy_from-window buf i (suc zero) lt fits = refl
  memcpy_from-window buf i (suc (suc n)) lt fits = rw (
    mod-eq_of_lt {n = i + 1} {m = size} (omega arith),
    memcpy_from-window buf (i + 1) (suc n) (omega arith) (omega arith),
  )

  pub memcpy_to-put_bytes :
      (buf : ℕ → ℕ) (i : ℕ) (xs : List ℕ)
      → i < size
      → i + length xs ≤ size
      → memcpy_to buf i xs ≡ put_bytes buf i xs
  unfolding memcpy_to
  memcpy_to-put_bytes buf i [] lt fits = refl
  memcpy_to-put_bytes buf i (x ∷ []) lt fits = refl
  memcpy_to-put_bytes buf i (x ∷ y ∷ xs) lt fits = rw (
    mod-eq_of_lt {n = i + 1} {m = size} (omega arith),
    memcpy_to-put_bytes (update buf i x) (i + 1) (y ∷ xs) (omega arith) (omega arith),
  )

  at_end : (i : ℕ) → i ≡ size → 0 < size → i % size ≡ 0
  at_end i e pos = omega (
    arith,
    mod-eq-sub-mod {n = i} {m = size} (omega arith),
    mod-eq_of_lt {n = i - size} {m = size} (omega arith),
  )

  -- A copy that goes over the end, in two parts of which the first has `f` bytes.
  pub memcpy_to_split :
      (f : ℕ) (buf : ℕ → ℕ) (i : ℕ) (xs : List ℕ)
      → i + f ≡ size
      → f < length xs
      → length xs ≤ size
      → 0 < f
      → memcpy_to (memcpy_to buf i (take f xs)) 0 (drop f xs) ≡ put_bytes buf i xs
  unfolding memcpy_to
  memcpy_to_split zero buf i xs e more fits nonzero = absurd (omega arith)
  memcpy_to_split (suc f) buf i [] e more fits nonzero = absurd (omega arith)
  memcpy_to_split (suc zero) buf i (x ∷ xs) e more fits nonzero =
      rw (at_end (i + 1) e (omega arith))
        (memcpy_to-put_bytes (update buf i x) 0 xs (omega arith) (omega arith))
  memcpy_to_split (suc (suc f)) buf i (x ∷ xs) e more fits nonzero =
      rw (mod-eq_of_lt {n = i + 1} {m = size} (omega arith)) (
        memcpy_to_split (suc f) (update buf i x) (i + 1) xs (omega arith) (omega arith)
          (omega arith) (omega arith))

  pub memcpy_from_split :
      (buf : ℕ → ℕ) (i f m : ℕ)
      → i + f ≡ size
      → 0 < f
      → m ≤ size
      → memcpy_from buf i f ++ memcpy_from buf 0 m ≡ window buf i (f + m)
  memcpy_from_split buf i f m e pos fits =
      rw
        (
          memcpy_from-window buf i f (omega arith) (omega arith),
          memcpy_from-window buf 0 m (omega arith) (omega arith),
        )
        (sym
          (window-add buf i f m (omega arith) ∙ ap (λ k. window buf i f ++ window buf k m) wraps))
    where
      wraps : (i + f) % size ≡ 0
      wraps = at_end (i + f) e (omega arith)

  -- Fewer than `size` steps round the buffer do not come back to the start.
  pub steps-ne : (h n : ℕ) → h < size → suc n < size → (h + suc n) % size ≢ h
  steps-ne h n lt less = elim (dec_lt (h + suc n) size) [
    | yes p ↦ omega (arith, mod-eq_of_lt p)
    | no p ↦ omega (
      arith,
      mod-eq-sub-mod {n = h + suc n} {m = size} (omega arith),
      mod-eq_of_lt {n = h + suc n - size} {m = size} (omega arith),
    )
  ]

  -- A byte put behind a window extends it.
  pub window-update :
      (buf : ℕ → ℕ) (x h n i : ℕ)
      → h < size
      → n < size
      → i ≡ (h + n) % size
      → window (update buf i x) h (suc n) ≡ window buf h n ++ (x ∷ [])
  window-update buf x h zero i lt less e = ground (arith, e, mod-eq_of_lt lt, add-zero h)
  window-update buf x h (suc n) i lt less e = ap₂ ◌∷◌ (ground (arith, e, steps-ne h n lt less)) (
      window-update buf x ((h + 1) % size) n i (mod-lt (h + 1) (omega arith)) (omega arith)
        (e ∙ later_step h n))

  pub window-put_bytes :
      (buf : ℕ → ℕ) (h n : ℕ) (xs : List ℕ)
      → h < size
      → n + length xs ≤ size
      → window (put_bytes buf ((h + n) % size) xs) h (n + length xs) ≡ window buf h n ++ xs
  window-put_bytes buf h n [] lt fits = rw (append-nil, add-zero) refl
  window-put_bytes buf h n (x ∷ xs) lt fits =
      rw (shift, longer)
        (window-put_bytes (update buf ((h + n) % size) x) h (suc n) xs lt (omega arith)
          ∙ ap (λ l. l ++ xs) (window-update buf x h n _ lt (omega arith) refl)
          ∙ append_assoc (window buf h n) (x ∷ []) xs)
    where
      shift : ((h + n) % size + 1) % size ≡ (h + suc n) % size
      shift = rw mod-add-mod (ap (λ k. k % size) (omega arith))

      longer : n + suc (length xs) ≡ suc n + length xs
      longer = omega arith
