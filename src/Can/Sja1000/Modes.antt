-- ===== src/Can/Sja1000/Modes.antt =====
-- The modes of the SJA1000, rtcan_sja1000.c: stop, start and sleep. `mods` are the answers of the
-- mode register, one for each read, and `meanwhile` is what the interrupt handler and other tasks
-- do to the driver's state when the lock is dropped for a busy sleep.
pub mod Stopping
use rtdm_native.Prelude.{
  ℕ, zero, suc, ◌+◌, ◌%◌, bit_or, if◌then◌else◌, Bool, true, false, not, ◌&&◌,
}
use rtdm_native.Rtdm.Errno.{Status, ok, err, eagain, enetdown}
use rtdm_native.Rtdm.Sem.{sem_init, sem_destroy}
use rtdm_native.Can.Types.{CanMode, CanState, Device}
use rtdm_native.Can.Sja1000.Chip.{
  Sja, write_reg, has, sja_mod, sja_ier, sja_rxerr, sja_txerr, sja1000_ier,
}

-- `STATE_OPERATING`; `STATE_RESET` is its negation.
unfoldable pub state_operating : CanState → Bool
state_operating CanState.stopped = false
state_operating CanState.bus_off = false
state_operating _ = true

-- The bits SJA_MOD_RM and SJA_MOD_SM.
abbrev pub mod_rm : ℕ
mod_rm = 1

abbrev pub mod_sm : ℕ
mod_sm = 16

abbrev pub set_state : CanState → Sja → Sja
set_state state s = record s { dev = record (s.dev) { state = state } }

abbrev pub close_sem : Sja → Sja
close_sem s = let d = s.dev in record s { dev = record d { tx_sem = sem_destroy d.tx_sem } }

abbrev pub open_sem : Sja → Sja
open_sem s = record s { dev = record (s.dev) { tx_sem = sem_init 1 } }

abbrev pub stopped_chip : Sja → Sja
stopped_chip s = close_sem (set_state CanState.stopped s)

-- `rtcan_sja_is_operating`: the answer, `*state`, and the controller. `mode_reg` is what the mode
-- register answers.
unfoldable pub rtcan_sja_is_operating : ℕ → CanState → Sja → Bool × CanState × Sja
unfolding write_reg
rtcan_sja_is_operating mode_reg state s =
    if state_operating state && has mode_reg mod_rm
    then (false, CanState.stopped, close_sem (write_reg sja_ier 0 s))
    else (state_operating state, state, s)

-- The mode register for the device's control mode: listen-only and self-test.
abbrev pub mod_reg : Device → ℕ
mod_reg d =
    let listen : ℕ = if has d.ctrl_mode 1 then bit_or 0 2 else 0 in
    if has d.ctrl_mode 2 then bit_or listen 4 else listen

module _ (mods : ℕ → ℕ) (meanwhile : ℕ → Sja → Sja) where
  -- `do { … } while (--wait_loop);` with `n` rounds to go; the answer tells whether some are left.
  unfoldable pub wait_for_reset : ℕ → ℕ → Sja → Bool × Sja
  wait_for_reset zero i s = (false, s)
  wait_for_reset (suc n) i s =
      let rest = wait_for_reset n (i + 1) (meanwhile i s) in
      if has (mods i % 256) mod_rm then (true, s) else rest

  -- `rtcan_sja_mode_stop`
  unfoldable pub rtcan_sja_mode_stop : Sja → Status × Sja
  unfolding write_reg
  rtcan_sja_mode_stop s =
      let (reset, s') = wait_for_reset 50 0 (write_reg sja_mod mod_rm (write_reg sja_ier 0 s)) in
      if not (state_operating s.dev.state)
      then (ok tt, s)
      else if reset
      then (ok tt, stopped_chip s')
      else (err eagain, write_reg sja_ier sja1000_ier s')

  -- `switch (dev->state)` of `rtcan_sja_mode_start`
  unfoldable pub start_from : CanState → Sja → Sja
  unfolding write_reg
  start_from CanState.stopped s = write_reg sja_mod (mod_reg s.dev) (
      write_reg sja_ier sja1000_ier
        (open_sem (set_state CanState.active (write_reg sja_txerr 0 (write_reg sja_rxerr 0 s)))))
  start_from CanState.sleeping s = meanwhile 0 (write_reg sja_mod (mod_reg s.dev) s)
  start_from CanState.bus_off s =
      set_state CanState.active (open_sem (write_reg sja_mod (mod_reg s.dev) s))
  start_from _ s = s

  unfoldable pub rtcan_sja_mode_start : Sja → Status × Sja
  unfolding start_from
  rtcan_sja_mode_start s = (ok tt, start_from s.dev.state s)

  -- `case CAN_MODE_SLEEP`
  unfoldable pub fall_asleep : Sja → Status × Sja
  unfolding rtcan_sja_is_operating write_reg
  fall_asleep s =
      let (operating, state, s₁) = rtcan_sja_is_operating (mods 0 % 256) s.dev.state s in
      if not operating then (err enetdown, set_state state s₁) else elim state [
        | CanState.sleeping ↦ (ok tt, set_state CanState.sleeping s₁)
        | awake ↦ (
          ok tt,
          set_state CanState.sleeping (
              write_reg sja_mod (bit_or (mods 1 % 256) mod_sm)
                (record s₁ { state_before_sleep = awake })),
        )
      ]

  -- `rtcan_sja_set_mode`
  unfoldable pub rtcan_sja_set_mode : CanMode → Sja → Status × Sja
  unfolding rtcan_sja_mode_stop rtcan_sja_mode_start fall_asleep
  rtcan_sja_set_mode CanMode.stop s = rtcan_sja_mode_stop s
  rtcan_sja_set_mode CanMode.start s = rtcan_sja_mode_start s
  rtcan_sja_set_mode CanMode.sleep s = fall_asleep s

-- `rtcan_sja_get_state`
unfoldable pub rtcan_sja_get_state : ℕ → Sja → CanState × Sja
unfolding rtcan_sja_is_operating
rtcan_sja_get_state mode_reg s =
    let (operating, state, s') = rtcan_sja_is_operating mode_reg s.dev.state s in (state, s')
