-- ===== src/Can/Sja1000/Semaphore.antt =====
-- The senders' semaphore of the SJA1000 and the state of the controller, under the operations of
-- rtcan_sja1000.c.
use rtdm_native.Prelude.{ℕ, zero, suc, ◌+◌, ◌≡◌, refl, true, not, ◌&&◌, arith}
use rtdm_native.Rtdm.Sem.{sem_init, sem_destroy}
use rtdm_native.Can.Types.{CanMode, CanState, Skb}
use rtdm_native.Can.Sja1000.Chip.{
  Sja, RegisterFile, read_reg, write_reg, has, sja_sr, sja_mod, sja_ier,
}
use rtdm_native.Can.Sja1000.Errors.{
  rtcan_sja_err_interrupt, error_state, passive_state, is_warning, ir_ei, sr_bs,
}
use rtdm_native.Can.Sja1000.Modes.{
  state_operating, mod_rm, mod_reg, set_state, wait_for_reset, rtcan_sja_mode_stop, start_from,
  rtcan_sja_mode_start, fall_asleep, rtcan_sja_set_mode, rtcan_sja_get_state,
}

-- The semaphore is there exactly while the controller operates, and it wakes to an operating state.
pub record HasSem (s : Sja) : Type 0 where
  pub destroyed : s.dev.tx_sem.destroyed ≡ not (state_operating s.dev.state)
  pub wakes : state_operating s.state_before_sleep ≡ true

-- What happens to a controller: a mode is set, its state is asked for and kept (as the device
-- requests do), an error interrupt or a wake-up interrupt is served while it operates.
pub data Runs : Sja → Sja → Type 0 where
  rests : {s : Sja} → Runs s s
  follows : {s t u : Sja} → Runs s t → Runs t u → Runs s u
  sets_mode :
      {s : Sja} (mods : ℕ → ℕ) (meanwhile : ℕ → Sja → Sja) (m : CanMode)
      → ((i : ℕ) (t : Sja) → Runs t (meanwhile i t))
      → Runs s (rtcan_sja_set_mode mods meanwhile m s).1
  gets_state :
      {s : Sja} (mode_reg : ℕ)
      → Runs s (set_state (rtcan_sja_get_state mode_reg s).0 (rtcan_sja_get_state mode_reg s).1)
  meets_error :
      {s : Sja} (regs : RegisterFile) (irq_source : ℕ) (skb : Skb)
      → state_operating s.dev.state ≡ true
      → Runs s (rtcan_sja_err_interrupt regs irq_source s skb).0
  wakes_up :
      {s : Sja} → state_operating s.dev.state ≡ true → Runs s (set_state s.state_before_sleep s)

set-HasSem :
    (s : Sja) (st : CanState)
    → HasSem s
    → state_operating s.dev.state ≡ true
    → state_operating st ≡ true
    → HasSem (set_state st s)
set-HasSem s st h e f = record { destroyed = ground (arith, h.destroyed, e, f); wakes = h.wakes }

-- The state that an error leaves: bus-off, or one that operates.
operating-error_state :
    (irq_source status : ℕ) (state : CanState)
    → state_operating state ≡ true
    → state_operating (error_state irq_source status state)
      ≡ not (has irq_source ir_ei && has status sr_bs)
unfolding error_state passive_state is_warning state_operating
operating-error_state irq_source status state h = ground arith

err_interrupt-HasSem :
    (regs : RegisterFile) (irq_source : ℕ) (s : Sja) (skb : Skb)
    → HasSem s
    → state_operating s.dev.state ≡ true
    → HasSem (rtcan_sja_err_interrupt regs irq_source s skb).0
unfolding rtcan_sja_err_interrupt sem_destroy
err_interrupt-HasSem regs irq_source s skb h e = record {
  destroyed = ground (
    arith,
    h.destroyed,
    e,
    operating-error_state irq_source (read_reg regs sja_sr) s.dev.state e,
  );
  wakes = ground (arith, h.wakes);
}

get_state-HasSem :
    (mode_reg : ℕ) (s : Sja)
    → HasSem s
    → HasSem (set_state (rtcan_sja_get_state mode_reg s).0 (rtcan_sja_get_state mode_reg s).1)
unfolding rtcan_sja_get_state state_operating sem_destroy
get_state-HasSem mode_reg s h = ground (arith, h.destroyed, h.wakes)

module _ (mods : ℕ → ℕ) (meanwhile : ℕ → Sja → Sja)
    (kept : (i : ℕ) (t : Sja) → HasSem t → HasSem (meanwhile i t)) where
  wait-HasSem : (n i : ℕ) (s : Sja) → HasSem s → HasSem (wait_for_reset mods meanwhile n i s).1
  unfolding wait_for_reset
  wait-HasSem zero i s h = h
  wait-HasSem (suc n) i s h = ground (arith, wait-HasSem n (i + 1) (meanwhile i s) (kept i s h))

  written-HasSem : (reg val : ℕ) (s : Sja) → HasSem s → HasSem (write_reg reg val s)
  unfolding write_reg
  written-HasSem reg val s h = record { destroyed = h.destroyed; wakes = h.wakes }

  mode_stop-HasSem : (s : Sja) → HasSem s → HasSem (rtcan_sja_mode_stop mods meanwhile s).1
  unfolding rtcan_sja_mode_stop state_operating sem_destroy
  mode_stop-HasSem s h =
      let asked = write_reg sja_mod mod_rm (write_reg sja_ier 0 s) in
      let waited =
        wait-HasSem 50 0 asked
          (written-HasSem sja_mod mod_rm (write_reg sja_ier 0 s) (written-HasSem sja_ier 0 s h)) in
      ground (arith, h, waited)

  start-HasSem :
      (state : CanState) (s : Sja)
      → HasSem s
      → s.dev.state ≡ state
      → HasSem (start_from mods meanwhile state s)
  unfolding start_from state_operating sem_init write_reg
  start-HasSem CanState.sleeping s h e =
      kept 0 (write_reg sja_mod (mod_reg s.dev) s) (written-HasSem sja_mod (mod_reg s.dev) s h)
  start-HasSem state s h e = ground (arith, h, e)

  mode_start-HasSem : (s : Sja) → HasSem s → HasSem (rtcan_sja_mode_start mods meanwhile s).1
  unfolding rtcan_sja_mode_start
  mode_start-HasSem s h = start-HasSem (s.dev.state) s h refl

  fall_asleep-HasSem : (s : Sja) → HasSem s → HasSem (fall_asleep mods meanwhile s).1
  unfolding fall_asleep state_operating sem_destroy
  fall_asleep-HasSem s h = ground (arith, h)

  set_mode-HasSem :
      (m : CanMode) (s : Sja) → HasSem s → HasSem (rtcan_sja_set_mode mods meanwhile m s).1
  unfolding rtcan_sja_set_mode
  set_mode-HasSem CanMode.stop s h = mode_stop-HasSem s h
  set_mode-HasSem CanMode.start s h = mode_start-HasSem s h
  set_mode-HasSem CanMode.sleep s h = fall_asleep-HasSem s h

-- However the modes are set, the state is asked for, and error and wake-up interrupts are served while
-- the controller operates, the senders' semaphore is there exactly in the operating states.
pub Runs-HasSem : {s t : Sja} → Runs s t → HasSem s → HasSem t
Runs-HasSem rests h = h
Runs-HasSem (follows r q) h = Runs-HasSem q (Runs-HasSem r h)
Runs-HasSem (sets_mode mods meanwhile m others) h =
    set_mode-HasSem mods meanwhile (λ i t. Runs-HasSem (others i t)) m _ h
Runs-HasSem (gets_state mode_reg) h = get_state-HasSem mode_reg _ h
Runs-HasSem (meets_error regs irq_source skb e) h = err_interrupt-HasSem regs irq_source _ skb h e
Runs-HasSem (wakes_up e) h = set-HasSem _ _ h e (h.wakes)
