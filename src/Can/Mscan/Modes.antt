-- ===== src/Can/Mscan/Modes.antt =====
-- The modes and settings of the MSCAN, rtcan_mscan.c. `ack` answers CANCTL1, one value for each read,
-- and `meanwhile` is what the chip, the interrupt handler and other tasks do during a busy sleep.
use rtdm_native.Prelude.{
  ℕ, zero, suc, ◌+◌, ◌*◌, ◌==◌, if◌then◌else◌, Bool, not, ◌&&◌, ◌||◌, List, [], ◌∷◌, Option, none,
  some,
}
use rtdm_native.Rtdm.Errno.{Status, ok, err, enetdown}
use rtdm_native.Rtdm.Sem.{sem_init, sem_destroy}
use rtdm_native.Can.Types.{CanMode, CanState, Bittime, is_operating}
use rtdm_native.Can.Sja1000.Chip.{has}
use rtdm_native.Can.Sja1000.Setup.{btr0_of, btr1_of}
use rtdm_native.Can.Mscan.Chip.{
  Mscan, get_reg, put_reg, or_reg, clear_reg, canctl0, canctl1, canbtr0, canbtr1, canrier, cantier,
  canidac, mscan_rier,
}

abbrev pub in_state : CanState → Mscan → Mscan
in_state state s = record s { dev = record (s.dev) { state = state } }

abbrev pub with_sem : Mscan → Mscan
with_sem s = record s { dev = record (s.dev) { tx_sem = sem_init 1 } }

-- `rtcan_mscan_set_bit_time`; the macros are those of the SJA1000. Printing is left out.
unfoldable pub rtcan_mscan_set_bit_time : Bittime → Mscan → Status × Mscan
unfolding put_reg
rtcan_mscan_set_bit_time (Bittime.btr a b) s = (ok tt, put_reg canbtr1 b (put_reg canbtr0 a s))
rtcan_mscan_set_bit_time (Bittime.std t) s =
    (ok tt, put_reg canbtr1 (btr1_of t) (put_reg canbtr0 (btr0_of t) s))

-- Stores `val` into each of some registers.
unfoldable pub put_all : List ℕ → ℕ → Mscan → Mscan
unfolding put_reg
put_all [] val s = s
put_all (r ∷ rs) val s = put_all rs val (put_reg r val s)

-- `mscan_chip_config`: the clock source, and filters that accept every message.
unfoldable pub mscan_chip_config : Mscan → Mscan
unfolding put_all get_reg
mscan_chip_config s =
    let s₁ = clear_reg canctl1 0x10 (or_reg canctl1 0x40 s) in
    let s₂ =
      put_all (0x29 ∷ 0x28 ∷ 0x2D ∷ 0x2C ∷ []) 0xFF
        (put_all (0x21 ∷ 0x20 ∷ 0x25 ∷ 0x24 ∷ []) 0 s₁) in
    let s₃ =
      put_all (0x39 ∷ 0x38 ∷ 0x3D ∷ 0x3C ∷ []) 0xFF
        (put_all (0x31 ∷ 0x30 ∷ 0x35 ∷ 0x34 ∷ []) 0 s₂) in
    clear_reg canidac 0x30 s₃

module _ (ack : ℕ → ℕ) (meanwhile : ℕ → Mscan → Mscan) where
  -- A busy wait without a bound, at most `n` rounds of it: `none` still waits.
  unfoldable pub busy_wait : (ℕ → Bool) → ℕ → ℕ → Mscan → Option Mscan
  busy_wait ready zero i s = none
  busy_wait ready (suc n) i s =
      let rest = busy_wait ready n (i + 1) (meanwhile i s) in if ready i then some s else rest

  -- `rtcan_mscan_mode_stop`
  unfoldable pub rtcan_mscan_mode_stop : ℕ → Mscan → Option (Status × Mscan)
  unfolding put_reg get_reg
  rtcan_mscan_mode_stop fuel s =
      let asked = or_reg canctl0 0x01 (or_reg canctl0 0x02 s) in
      if not (is_operating s.dev.state)
      then some (ok tt, s)
      else elim (busy_wait (λ i. has (ack i) 0x02 && has (ack i) 0x01) fuel 0 asked) [
        | none ↦ none
        | some s' ↦
            let s'' = in_state CanState.stopped s' in
            let d = s''.dev in
            some (ok tt, record s'' { dev = record d { tx_sem = sem_destroy d.tx_sem } })
      ]

  -- `regs->canctl1 |= flag;` or `regs->canctl1 &= ~flag;`
  abbrev pub set_mode_bit : Bool → ℕ → Mscan → Mscan
  set_mode_bit on flag s = if on then or_reg canctl1 flag s else clear_reg canctl1 flag s

  -- From the modes SLEEPING and STOPPED: the wait reads CANCTL1 twice for each test.
  unfoldable pub to_normal : ℕ → Mscan → Option Mscan
  unfolding put_reg get_reg
  to_normal fuel s =
      let s₁ = set_mode_bit (has s.dev.ctrl_mode 1) 0x10 (with_sem s) in
      let s₂ = set_mode_bit (has s.dev.ctrl_mode 2) 0x20 s₁ in
      let s₃ = clear_reg canctl0 0x02 (clear_reg canctl0 0x01 s₂) in
      let ready : ℕ → Bool = λ i. not (has (ack (2 * i)) 0x01 || has (ack (2 * i + 1)) 0x02) in
      elim (busy_wait ready fuel 0 s₃) [
        | none ↦ none
        | some s₄ ↦ some (in_state CanState.active (or_reg canrier mscan_rier s₄))
      ]

  -- `switch (state)` of `rtcan_mscan_mode_start`; `state` is stored again at the end.
  unfoldable pub start_mscan : CanState → ℕ → Mscan → Option Mscan
  unfolding put_reg to_normal
  start_mscan CanState.sleeping fuel s = to_normal fuel s
  start_mscan CanState.stopped fuel s = to_normal fuel s
  start_mscan CanState.bus_off fuel s =
      some (in_state CanState.active (with_sem (put_reg canrier mscan_rier s)))
  start_mscan state fuel s = some (in_state state s)

  unfoldable pub rtcan_mscan_mode_start : ℕ → Mscan → Option (Status × Mscan)
  unfolding start_mscan
  rtcan_mscan_mode_start fuel s = elim (start_mscan s.dev.state fuel s) [
    | none ↦ none
    | some s' ↦ some (ok tt, s')
  ]

  -- A busy wait with `left` rounds to go, of which one at least is made if the test fails: what is
  -- left after it.
  unfoldable pub doze : (ℕ → Bool) → ℕ → ℕ → Mscan → ℕ × Mscan
  doze ready zero i s = (0, if ready i then s else meanwhile i s)
  doze ready (suc n) i s =
      let rest = doze ready n (i + 1) (meanwhile i s) in
      if ready i then (suc n, s) else if n == 0 then (0, meanwhile i s) else rest

  -- `case CAN_MODE_SLEEP`. `retries++ >= 1000` allows 1001 rounds for both waits; `ack` answers the
  -- first wait, `ack'` the second.
  unfoldable pub sleep_mscan : (ℕ → ℕ) → Mscan → Status × Mscan
  unfolding put_reg get_reg
  sleep_mscan ack' s =
      let s₁ =
        put_reg cantier 0 (put_reg canrier 0 (record s { state_before_sleep = s.dev.state })) in
      let s₂ = or_reg canctl0 0x06 s₁ in
      let (left, s₃) = doze (λ i. has (ack i) 0x02) 1001 0 s₂ in
      let (_, s₄) =
        doze (λ i. not (has (ack' i) 0x01)) left (1001 + 1) (clear_reg canctl0 0x01 s₃) in
      if not (is_operating s.dev.state)
      then (err enetdown, s)
      else (ok tt, in_state CanState.sleeping (put_reg canrier 0x80 s₄))

  -- `rtcan_mscan_set_mode`
  unfoldable pub rtcan_mscan_set_mode : (ℕ → ℕ) → ℕ → CanMode → Mscan → Option (Status × Mscan)
  unfolding rtcan_mscan_mode_stop rtcan_mscan_mode_start sleep_mscan
  rtcan_mscan_set_mode ack' fuel CanMode.stop s = rtcan_mscan_mode_stop fuel s
  rtcan_mscan_set_mode ack' fuel CanMode.start s = rtcan_mscan_mode_start fuel s
  rtcan_mscan_set_mode ack' fuel CanMode.sleep s = some (sleep_mscan ack' s)
