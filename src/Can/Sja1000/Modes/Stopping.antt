-- ===== src/Can/Sja1000/Modes/Stopping.antt =====
-- The busy wait of `rtcan_sja_mode_stop`: every way it ends.
use rtdm_native.Prelude.{
  ℕ, zero, suc, ◌+◌, ◌%◌, ◌<◌, ◌≡◌, ◌⊎◌, inl, inr, refl, Bool-cases, subst, true, false, arith,
}
use rtdm_native.Rtdm.Errno.{ok, err, eagain}
use rtdm_native.Can.Sja1000.Chip.{Sja, write_reg, has, sja_mod, sja_ier, sja1000_ier}
use rtdm_native.Can.Sja1000.Modes.{
  state_operating, mod_rm, wait_for_reset, stopped_chip, rtcan_sja_mode_stop,
}

module _ (mods : ℕ → ℕ) (meanwhile : ℕ → Sja → Sja) where
  -- The mode register shows reset mode at the read with this number.
  abbrev pub InReset : ℕ → Type 0
  InReset i = has (mods i % 256) mod_rm ≡ true

  -- The controller after busy sleeps `i` to `i + n - 1`.
  unfoldable pub sleeps : ℕ → ℕ → Sja → Sja
  sleeps zero i s = s
  sleeps (suc n) i s = sleeps n (i + 1) (meanwhile i s)

  -- The first of `n` reads from number `i` on that shows reset mode, or none.
  abbrev pub Waits : ℕ → ℕ → Sja → Type 0
  Waits n i s =
      ((k : ℕ) × (k < n)
        × InReset (i + k)
        × ((j : ℕ) → j < k → has (mods (i + j) % 256) mod_rm ≡ false)
        × (wait_for_reset mods meanwhile n i s ≡ (true, sleeps k i s)))
      ⊎ (((j : ℕ) → j < n → has (mods (i + j) % 256) mod_rm ≡ false)
          × (wait_for_reset mods meanwhile n i s ≡ (false, sleeps n i s)))

  -- One more read before others that do not show reset mode.
  one_more :
      (n i : ℕ)
      → has (mods i % 256) mod_rm ≡ false
      → ((j : ℕ) → j < n → has (mods (i + 1 + j) % 256) mod_rm ≡ false)
      → (j : ℕ) → j < suc n
      → has (mods (i + j) % 256) mod_rm ≡ false
  one_more n i e missed zero h =
      subst (λ (m : ℕ). has (mods m % 256) mod_rm ≡ false) {x = i} (omega arith) e
  one_more n i e missed (suc j) h =
      subst (λ (m : ℕ). has (mods m % 256) mod_rm ≡ false) {x = i + 1 + j} (omega arith)
        (missed j (omega arith))

  -- A read that does not show reset mode puts the others off by one.
  later :
      (n i : ℕ) (s : Sja)
      → has (mods i % 256) mod_rm ≡ false
      → Waits n (i + 1) (meanwhile i s)
      → Waits (suc n) i s
  unfolding wait_for_reset sleeps
  later n i s e (inl (k, l, hit, missed, ends)) = inl (
    suc k,
    omega (arith, l),
    subst InReset {x = i + 1 + k} (omega arith) hit,
    one_more k i e missed,
    rw e ends,
  )
  later n i s e (inr (missed, ends)) = inr (one_more n i e missed, rw e ends)

  wait-Waits : (n i : ℕ) (s : Sja) → Waits n i s
  unfolding wait_for_reset sleeps
  wait-Waits zero i s = inr (λ j h. absurd (omega arith), refl)
  wait-Waits (suc n) i s = elim (Bool-cases (has (mods i % 256) mod_rm)) [
    | inl e ↦ inl (
      0,
      omega arith,
      subst InReset {x = i} (omega arith) e,
      λ j h. absurd (omega arith),
      rw e refl,
    )
    | inr e ↦ later n i s e (wait-Waits n (i + 1) (meanwhile i s))
  ]

  -- The controller when the wait begins.
  abbrev pub asked : Sja → Sja
  asked s = write_reg sja_mod mod_rm (write_reg sja_ier 0 s)

  -- The stop ends at the first read that shows reset mode, or after 50 reads that do not.
  abbrev pub Stops : Sja → Type 0
  Stops s =
      ((k : ℕ) × (k < 50)
        × InReset k
        × ((j : ℕ) → j < k → has (mods j % 256) mod_rm ≡ false)
        × (rtcan_sja_mode_stop mods meanwhile s ≡ (ok tt, stopped_chip (sleeps k 0 (asked s)))))
      ⊎ (((j : ℕ) → j < 50 → has (mods j % 256) mod_rm ≡ false)
          × (rtcan_sja_mode_stop mods meanwhile s
              ≡ (err eagain, write_reg sja_ier sja1000_ier (sleeps 50 0 (asked s)))))

  -- A stop of an operating controller succeeds at the first of 50 reads that shows reset mode: the state
  -- is then STOPPED and the senders' semaphore is destroyed, whatever happened during the busy
  -- sleeps before. Only when all 50 reads fail does it give -EAGAIN, with every interrupt enabled again.
  pub mode_stop-Stops : (s : Sja) → state_operating s.dev.state ≡ true → Stops s
  unfolding rtcan_sja_mode_stop
  mode_stop-Stops s h = elim (wait-Waits 50 0 (asked s)) [
    | inl (k, l, hit, missed, ends) ↦ inl (
      k,
      l,
      subst InReset {x = 0 + k} (omega arith) hit,
      λ j u. from_zero j (missed j u),
      rw (ends, h) refl,
    )
    | inr (missed, ends) ↦ inr (λ j u. from_zero j (missed j u), rw (ends, h) refl)
  ]
    where
      from_zero :
          (j : ℕ) → has (mods (0 + j) % 256) mod_rm ≡ false → has (mods j % 256) mod_rm ≡ false
      from_zero j e =
          subst (λ (m : ℕ). has (mods m % 256) mod_rm ≡ false) {x = 0 + j} (omega arith) e
