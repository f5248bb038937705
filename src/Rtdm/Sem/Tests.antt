-- ===== src/Rtdm/Sem/Tests.antt =====
-- The semaphore of drvlib.c at concrete turns.
use rtdm_native.Prelude.{refl, true, false, List, [], ◌∷◌, some, ◌≡◌}
use rtdm_native.Prelude.Int.{pos, ◌-ℤ◌, ◌+ℤ◌}
use rtdm_native.Rtdm.Errno.{Status, err, eintr}
use rtdm_native.Rtdm.Sem.{
  Sem, Turn, sem_up, sem_ups, meet, leave, round, down_loop, sem_timeddown, sem_timeddown_slow,
}
use rtdm_native.Rtdm.Sem.Tokens.{Balanced, sem_timeddown_balance, sem_timeddown-completes}

-- A signal comes while the task waits on an empty semaphore.
abbrev interrupted : List Turn
interrupted =
    record { ups = 0; destroy = false; signalled = false; expired = false }
    ∷ record { ups = 0; destroy = false; signalled = true; expired = false }
    ∷ []

abbrev empty : Sem
empty = record { count = pos 0; sleepers = 0; destroyed = false }

abbrev outcome : Status × Sem
outcome = (err eintr, empty)

completes_example :
    (r : Status × Sem) × (sem_timeddown (pos 5) interrupted empty ≡ some r)
    × Balanced interrupted empty r
completes_example = sem_timeddown-completes (pos 5) interrupted empty refl refl

balance_example : Balanced interrupted empty outcome
unfolding sem_timeddown sem_timeddown_slow down_loop round meet leave sem_ups sem_up ◌-ℤ◌ ◌+ℤ◌
balance_example = sem_timeddown_balance (pos 5) interrupted empty refl refl
