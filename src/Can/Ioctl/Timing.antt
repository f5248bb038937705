-- ===== src/Can/Ioctl/Timing.antt =====
-- `rtcan_calc_bit_time` of rtcan_raw_dev.c: the bit time that it makes of the best candidate.
use rtdm_native.Prelude.{
  ℕ, ◌-◌, Option, none, some, ◌+◌, ◌*◌, ◌/◌, ◌^◌, ◌≤◌, ◌<◌, ◌≡◌, inl, inr, refl, sym, ap, ◌∙◌,
  arith, Bool, true, false, not, ◌&&◌, ◌||◌, ltb, leb, ◌==◌, if◌then◌else◌, holds_below,
  holds_below_lem, Bool-cases,
}
use rtdm_native.Rtdm.Errno.{Result, ok, err, edom}
use rtdm_native.Can.Types.{BittimeStd}
use rtdm_native.Can.Ioctl.{
  Best, distance, sample_point, split_tseg, divisor_at, finish_bit_time, rtcan_calc_bit_time,
}
use native.Mathlib.Nat.{div-lt_iff_lt-mul, le-div_iff_mul-le}
use rtdm_native.Can.Ioctl.BitTime.{
  bit_rate, InRange, error_of, first, found, found-Sane, search-least, try_all-search,
}

-- The two segments of `tseg` time quanta less one fill them, within the limits of the registers.
abbrev fits : ℕ → ℕ → Bool
fits sampl_pt tseg =
    let (tseg1, tseg2) = split_tseg sampl_pt tseg in
    ltb tseg 2 || (leb tseg1 15 && leb tseg2 7 && (tseg1 + tseg2 + 2 == tseg))

fits-all : (rate tseg : ℕ) → tseg ≤ 24 → fits (sample_point rate) tseg ≡ true
unfolding sample_point
fits-all rate tseg h = ground (arith, at_75, at_90)
  where
    at_75 : fits 75 tseg ≡ true
    at_75 = holds_below_lem (fits 75) 25 (unfold holds_below split_tseg in refl) (omega arith)

    at_90 : fits 90 tseg ≡ true
    at_90 = holds_below_lem (fits 90) 25 (unfold holds_below split_tseg in refl) (omega arith)

-- The values that the registers of the controllers take.
pub record IsBitTime (t : BittimeStd) : Type 0 where
  pub brp : (1 ≤ t.brp) × (t.brp ≤ 64)
  pub phase_seg1 : (1 ≤ t.phase_seg1) × (t.phase_seg1 ≤ 16)
  pub phase_seg2 : (1 ≤ t.phase_seg2) × (t.phase_seg2 ≤ 8)
  pub sjw : (1 ≤ t.sjw) × (t.sjw ≤ 2)

-- A bit time is within a tenth of the wanted rate, and no candidate in range is nearer to it. Without
-- one every candidate in range is off by more than a tenth.
abbrev pub Meets : ℕ → ℕ → Result BittimeStd → Type 0
Meets clock rate (ok t) =
    IsBitTime t
    × (10 * distance rate (bit_rate clock t) ≤ rate)
    × ((j : ℕ)
        → 4 ≤ j
        → j ≤ 49
        → InRange clock rate j
        → distance rate (bit_rate clock t) ≤ error_of clock rate j)
Meets clock rate (err e) =
    (e ≡ edom)
    × ((j : ℕ) → 4 ≤ j → j ≤ 49 → InRange clock rate j → rate < 10 * error_of clock rate j)

-- The test that refuses the best candidate.
abbrev is_far : ℕ → ℕ → Bool
is_far rate error = not (error == 0) && ltb (rate / error) 10

far : (rate error : ℕ) → is_far rate error ≡ true → rate < 10 * error
far rate error e = elim (Bool-cases (error == 0)) [
  | inl z ↦ absurd (ground (arith, e, z))
  | inr p ↦
      let pos : 0 < error = ground (arith, p) in
      let small : rate / error < 10 = ground (arith, e, p) in (div-lt_iff_lt-mul pos).0 small
]

near : (rate error : ℕ) → is_far rate error ≡ false → 10 * error ≤ rate
near rate error e = elim (Bool-cases (error == 0)) [
  | inl z ↦ ground (arith, z)
  | inr p ↦
      let pos : 0 < error = ground (arith, p) in
      let big : 10 ≤ rate / error = ground (arith, e, p) in (le-div_iff_mul-le pos).0 big
]

-- The bit time that is made of a candidate.
abbrev bit_time : ℕ → Best → BittimeStd
bit_time rate b = record {
  brp = b.brp + 1;
  prop_seg = 0;
  phase_seg1 = (split_tseg (sample_point rate) b.tseg).0 + 1;
  phase_seg2 = (split_tseg (sample_point rate) b.tseg).1 + 1;
  sjw = (if ltb rate ((100000 + 125000) / 2) then 1 else 0) + 1;
  sam = 0;
}

module _ (clock rate : ℕ) (b : Best) (low : 2 ≤ b.tseg) (high : b.tseg ≤ 24) where
  segments :
      let (tseg1, tseg2) = split_tseg (sample_point rate) b.tseg in
      (tseg1 ≤ 15) × (tseg2 ≤ 7) × (tseg1 + tseg2 + 2 ≡ b.tseg)
  segments =
      let f = fits-all rate b.tseg high in (ground (arith, f), ground (arith, f), ground (arith, f))

  bit_time-IsBitTime : b.brp ≤ 63 → IsBitTime (bit_time rate b)
  bit_time-IsBitTime h = record {
    brp = (omega arith, omega arith);
    phase_seg1 = (omega arith, omega (arith, segments.0));
    phase_seg2 = (omega arith, omega (arith, segments.1));
    sjw = (ground arith, ground arith);
  }

  bit_time-rate : bit_rate clock (bit_time rate b) ≡ clock / ((b.brp + 1) * (1 + b.tseg))
  bit_time-rate = ap (λ n. clock / ((b.brp + 1) * n)) (omega (arith, segments.2))

module _ (clock rate : ℕ) (h : rate < 2 ^ 31) where
  least :
      (j : ℕ)
      → 4 ≤ j
      → j ≤ 49
      → InRange clock rate j
      → (found clock rate).error ≤ error_of clock rate j
  least j l u r = (search-least clock rate 46 4 (first clock rate)).1 j l (omega arith) r

  refused : is_far rate (found clock rate).error ≡ true → Meets clock rate (err edom)
  refused e = (refl, λ j l u r. omega (arith, far rate (found clock rate).error e, least j l u r))

  accepted :
      is_far rate (found clock rate).error ≡ false
      → Meets clock rate (ok (bit_time rate (found clock rate)))
  accepted e = elim (found-Sane clock rate) [
    | inl s ↦ absurd (omega (arith, near rate (found clock rate).error e, s.0))
    | inr s ↦
        let b = found clock rate in
        let same : distance rate (bit_rate clock (bit_time rate b)) ≡ b.error =
          ap (distance rate) (bit_time-rate clock rate b s.0 s.1) ∙ sym s.3 in
        (
          bit_time-IsBitTime clock rate b s.0 s.1 s.2,
          omega (arith, same, near rate b.error e),
          λ j l u r. omega (arith, same, least j l u r),
        )
  ]

-- The outcome of the calculation: a trap if some candidate divides by 0, and else a result that meets the
-- wanted rate.
abbrev pub Calculates : ℕ → ℕ → Option (Result BittimeStd) → Type 0
Calculates clock rate none = (j : ℕ) × (4 ≤ j) × (j ≤ 49) × (divisor_at rate j ≡ 0)
Calculates clock rate (some r) =
    ((j : ℕ) → 4 ≤ j → j ≤ 49 → 0 < divisor_at rate j) × Meets clock rate r

finish-Meets :
    (clock rate : ℕ) → rate < 2 ^ 31 → Meets clock rate (finish_bit_time rate (found clock rate))
unfolding finish_bit_time
finish-Meets clock rate h = go (is_far rate (found clock rate).error) refl
  where
    go :
        (b : Bool)
        → is_far rate (found clock rate).error ≡ b
        → Meets clock rate (if b then err edom else ok (bit_time rate (found clock rate)))
    go true e = refused clock rate h e
    go false e = accepted clock rate h e

-- For a clock below 2 ^ 31 - 1 and a rate below 2 ^ 31: if the divisor of one of the 46 candidates goes
-- round to 0 modulo 2 ^ 32, the calculation traps in a division by 0, and it traps in no other case. Else it
-- gives a bit time for the registers that is within a tenth of the rate and as near to it as any
-- candidate in range, or -EDOM if every candidate in range is off by more than a tenth.
pub calc_bit_time-Calculates :
    (clock rate : ℕ)
    → clock < 2 ^ 31 - 1
    → rate < 2 ^ 31
    → Calculates clock rate (rtcan_calc_bit_time clock rate)
unfolding rtcan_calc_bit_time
calc_bit_time-Calculates clock rate l h = elim (try_all-search clock rate 46 4 (first clock rate)) [
  | inl (j, low, high, z, trap) ↦ rw (trap, rtcan_calc_bit_time) (j, low, omega arith, z)
  | inr (all, e) ↦
      rw (e, rtcan_calc_bit_time) (λ j low high. all j low (omega arith), finish-Meets clock rate h)
]
