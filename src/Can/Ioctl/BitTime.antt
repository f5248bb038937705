-- ===== src/Can/Ioctl/BitTime.antt =====
-- The search of `rtcan_calc_bit_time` in rtcan_raw_dev.c: what the best of its candidates is.
use rtdm_native.Prelude.{
  ℕ, zero, suc, ◌+◌, ◌-◌, ◌*◌, ◌/◌, ◌%◌, ◌≤◌, ◌<◌, ◌≡◌, ◌⊎◌, inl, inr, refl, sym, subst, ap, arith,
  ◌||◌, ltb, leb, ◌==◌, if◌then◌else◌, Bool-cases, none, some, ==_iff,
}
use rtdm_native.Can.Types.{BittimeStd}
use rtdm_native.Can.Ioctl.{Best, distance, divisor_at, rate_at, try_brp, try_tseg, try_all}

-- The bit rate of a bit time: the clock over the prescaler and the time quanta of a bit.
abbrev pub bit_rate : ℕ → BittimeStd → ℕ
bit_rate clock t = clock / (t.brp * (1 + t.prop_seg + t.phase_seg1 + t.phase_seg2))

-- Nothing tried yet was in range, or the best is a candidate in range with its error.
abbrev pub Sane : ℕ → ℕ → Best → Type 0
Sane clock rate b =
    ((b.error ≡ 1000000000) × (b.tseg ≡ 0) × (b.brp ≡ 0))
    ⊎ ((2 ≤ b.tseg)
        × (b.tseg ≤ 24)
        × (b.brp ≤ 63)
        × (b.error ≡ distance rate (clock / ((b.brp + 1) * (1 + b.tseg)))))

half_bounds : (k : ℕ) → 4 ≤ k → k ≤ 49 → (2 ≤ k / 2) × (k / 2 ≤ 24)
half_bounds k l h = (omega arith, omega arith)

module _ (clock rate : ℕ) where
  -- The prescaler of a candidate whose divisor is not 0.
  abbrev pub prescaler : ℕ → ℕ
  prescaler k = clock / divisor_at rate k + k % 2

  -- The round and the loop without a trap.
  round : ℕ → Best → Best
  round k b = try_brp clock rate k (prescaler k) b

  pub search : ℕ → ℕ → Best → Best
  search k zero b = b
  search k (suc n) b = search (k + 1) n (round k b)

  -- Some divisor of the rounds to come is 0 and the loop traps, or none is and it ends.
  pub try_all-search :
      (n k : ℕ) (b : Best)
      → ((j : ℕ) × (k ≤ j)
          × (j < k + n)
          × (divisor_at rate j ≡ 0)
          × (try_all clock rate k n b ≡ none))
        ⊎ (((j : ℕ) → k ≤ j → j < k + n → 0 < divisor_at rate j)
            × (try_all clock rate k n b ≡ some (search k n b)))
  unfolding try_all try_tseg search round
  try_all-search zero k b = inr (λ j l h. absurd (omega arith), refl)
  try_all-search (suc n) k b = elim (Bool-cases (divisor_at rate k == 0)) [
    | inl z ↦ inl (
      k,
      omega arith,
      omega arith,
      (==_iff (divisor_at rate k) 0).0 z,
      rw (z, try_all, try_tseg) refl,
    )
    | inr p ↦ elim (try_all-search n (k + 1) (round k b)) [
      | inl (j, l, h, zero_divisor, trap) ↦
          inl (j, omega arith, omega arith, zero_divisor, rw (p, try_all, try_tseg) trap)
      | inr (all, e) ↦ inr (
        λ j l h. elim (Bool-cases (j == k)) [
          | inl s ↦ subst (λ i. 0 < divisor_at rate i) (sym ((==_iff j k).0 s)) (ground (arith, p))
          | inr s ↦ all j (ground (arith, s)) (omega arith)
        ],
        rw (p, try_all, try_tseg) e,
      )
    ]
  ]

  -- The prescaler of the candidate is one that the controllers have.
  abbrev pub InRange : ℕ → Type 0
  InRange k = (1 ≤ prescaler k) × (prescaler k ≤ 64)

  -- How far the rate of the candidate is from the wanted one.
  abbrev pub error_of : ℕ → ℕ
  error_of k = distance rate (rate_at clock (prescaler k) k)

  pub candidate : ℕ → Best
  candidate k = record { error = error_of k; tseg = k / 2; brp = prescaler k - 1 }

  round-cases :
      (k : ℕ) (b : Best)
      → ((round k b ≡ b) × (InRange k → b.error ≤ error_of k))
        ⊎ ((round k b ≡ candidate k) × InRange k × (error_of k ≤ b.error))
  unfolding round try_brp candidate
  round-cases k b = go (prescaler k) (error_of k)
    where
      go :
          (brp error : ℕ)
          → ((if brp == 0 || ltb 64 brp
                  then b
                  else if leb error b.error
                  then record { error = error; tseg = k / 2; brp = brp - 1 }
                  else b)
                ≡ b)
              × ((1 ≤ brp) × (brp ≤ 64) → b.error ≤ error)
            ⊎ ((if brp == 0 || ltb 64 brp
                  then b
                  else if leb error b.error
                  then record { error = error; tseg = k / 2; brp = brp - 1 }
                  else b)
                ≡ record { error = error; tseg = k / 2; brp = brp - 1 })
              × ((1 ≤ brp) × (brp ≤ 64))
              × (error ≤ b.error)
      go brp error = elim (Bool-cases (brp == 0 || ltb 64 brp)) [
        | inl e ↦ inl (ground (arith, e), λ r. absurd (ground (arith, e, r.0, r.1)))
        | inr e ↦ elim (Bool-cases (leb error b.error)) [
          | inl f ↦
              inr (ground (arith, e, f), (ground (arith, e), ground (arith, e)), ground (arith, f))
          | inr f ↦ inl (ground (arith, e, f), λ r. ground (arith, f))
        ]
      ]

  round-Sane : (k : ℕ) (b : Best) → 4 ≤ k → k ≤ 49 → Sane clock rate b → Sane clock rate (round k b)
  unfolding candidate
  round-Sane k b l h s = elim (round-cases k b) [
    | inl c ↦ subst (Sane clock rate) (sym c.0) s
    | inr c ↦ subst (Sane clock rate) (sym c.0) (
        inr (
          (half_bounds k l h).0,
          (half_bounds k l h).1,
          omega arith,
          ap (λ n. distance rate (clock / (n * (1 + k / 2)))) (omega (arith, c.1.0)),
        ))
  ]

  search-Sane :
      (n k : ℕ) (b : Best) → 4 ≤ k → k + n ≤ 50 → Sane clock rate b → Sane clock rate (search k n b)
  unfolding search
  search-Sane zero k b l h s = s
  search-Sane (suc n) k b l h s =
      search-Sane n (k + 1) (round k b) (omega arith) (omega arith)
        (round-Sane k b l (omega arith) s)

  -- The error never grows, and no candidate in range has a smaller one than the best behind it.
  round-least :
      (k : ℕ) (b : Best)
      → ((round k b).error ≤ b.error) × (InRange k → (round k b).error ≤ error_of k)
  unfolding candidate
  round-least k b = elim (round-cases k b) [
    | inl c ↦
        (omega (arith, ap (λ x. x.error) c.0), λ r. omega (arith, ap (λ x. x.error) c.0, c.1 r))
    | inr c ↦ (omega (arith, ap (λ x. x.error) c.0, c.2), λ r. omega (arith, ap (λ x. x.error) c.0))
  ]

  pub search-least :
      (n k : ℕ) (b : Best)
      → ((search k n b).error ≤ b.error)
        × ((j : ℕ) → k ≤ j → j < k + n → InRange j → (search k n b).error ≤ error_of j)
  unfolding search
  search-least zero k b = (omega arith, λ j l h r. absurd (omega arith))
  search-least (suc n) k b =
      let b' = round k b in
      let ih = search-least n (k + 1) b' in
      let here = round-least k b in
      (
        omega (arith, ih.0, here.0),
        λ j l h r. elim (Bool-cases (j == k)) [
          | inl e ↦
              let same : j ≡ k = (==_iff j k).0 e in
              subst (λ i. (search (k + 1) n b').error ≤ error_of i) (sym same)
                (omega (arith, ih.0, here.1 (subst InRange same r)))
          | inr e ↦ ih.1 j (ground (arith, e)) (omega arith) r
        ],
      )

  -- What the calculation starts from, and the best of its 46 candidates.
  abbrev pub first : Best
  first = record { error = 1000000000; tseg = 0; brp = 0 }

  abbrev pub found : Best
  found = search 4 46 first

  pub found-Sane : Sane clock rate found
  found-Sane = search-Sane 46 4 first (omega arith) (omega arith) (inl (refl, refl, refl))
