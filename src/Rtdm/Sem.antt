-- ===== src/Rtdm/Sem.antt =====
-- The counting semaphore of include/rtdm/rtdm_driver_native.h (the fast paths) and of
-- ksrc/skins/rtdm/native/drvlib.c (the slow path). Its wait queue is what the scheduler acts on and is
-- not modelled: a sleeping task is given the list of its turns, each with what it finds.
pub mod Tokens
mod Tests
use rtdm_native.Prelude.{ℕ, zero, suc, Bool, true, false, ◌&&◌, ◌||◌, if◌then◌else◌, not}
use rtdm_native.Prelude.{List, [], ◌∷◌, Option, none, some}
use rtdm_native.Prelude.Int.{ℤ, pos, negsuc, ◌+ℤ◌, ◌-ℤ◌, ltb_ℤ}
use rtdm_native.Rtdm.Errno.{Errno, Result, ok, err, Status, eintr, eidrm, etimedout, ewouldblock}

-- `rtdm_sem_t`; `destroyed` is the bit RTDM_EVENT_DESTROY of `state`.
pub record Sem : Type 0 where
  pub count : ℤ
  pub sleepers : ℕ
  pub destroyed : Bool

unfoldable pub sem_init : ℕ → Sem
sem_init val = record { count = pos val; sleepers = 0; destroyed = false }

unfoldable pub sem_destroy : Sem → Sem
sem_destroy s = record s { destroyed = true }

unfoldable pub sem_up : Sem → Sem
unfolding ◌+ℤ◌
sem_up s = record s { count = s.count +ℤ pos 1 }

-- One turn of a task in the loop: how often other tasks called `rtdm_sem_up` since its last turn,
-- whether one called `rtdm_sem_destroy`, `signal_pending(current)`, and `toseq->task == NULL`. Waits of
-- other tasks on the same semaphore in between are left out.
pub record Turn : Type 0 where
  pub ups : ℕ
  pub destroy : Bool
  pub signalled : Bool
  pub expired : Bool

pub sem_ups : ℕ → Sem → Sem
sem_ups zero s = s
sem_ups (suc n) s = sem_ups n (sem_up s)

pub meet : Turn → Sem → Sem
unfolding sem_ups sem_destroy sem_up
meet t s = let s' = sem_ups t.ups s in if t.destroy then sem_destroy s' else s'

-- `sem->sleepers = 0; atomic_add(sleepers, &sem->count);`
leave : Sem → Sem
leave s = record s { count = s.count +ℤ pos s.sleepers; sleepers = 0 }

-- The count after `atomic_add(sleepers - 1, &sem->count)`.
abbrev joined : Sem → ℤ
joined s = s.count +ℤ (pos s.sleepers -ℤ pos 1)

-- One round of the loop: a result, or the semaphore that the task goes to sleep on.
round : Bool → Turn → Sem → Option Status × Sem
unfolding leave
round timed t s =
    if s.destroyed
    then (some (err eidrm), s)
    else if t.signalled
    then (some (err eintr), leave s)
    else if timed && t.expired
    then (some (err etimedout), leave s)
    else if ltb_ℤ (joined s) (pos 0)
    then (none, record s { count = joined s; sleepers = 1 })
    else (some (ok tt), record s { count = joined s; sleepers = 0 })

-- `for (;;)` of `_rtdm_sem_down` and `_rtdm_sem_timeddown`. `none`: asleep when the turns end.
down_loop : Bool → List Turn → Sem → Option (Status × Sem)
unfolding round meet
down_loop timed [] s = none
down_loop timed (t ∷ ts) s =
    let (r, s') = round timed t (meet t s) in
    elim r [ some ret ↦ some (ret, s') | none ↦ down_loop timed ts s' ]

-- `_rtdm_sem_timeddown`: a negative timeout does not wait, 0 waits without a timer.
sem_timeddown_slow : ℤ → List Turn → Sem → Option (Status × Sem)
unfolding down_loop
sem_timeddown_slow timeout ts s =
    if s.destroyed
    then some (err eidrm, s)
    else if ltb_ℤ timeout (pos 0)
    then some
        (err ewouldblock, record s { count = s.count +ℤ (pos s.sleepers +ℤ pos 1); sleepers = 0 })
    else down_loop (ltb_ℤ (pos 0) timeout) ts (record s { sleepers = suc s.sleepers })

-- `rtdm_sem_timeddown`.
unfoldable pub sem_timeddown : ℤ → List Turn → Sem → Option (Status × Sem)
unfolding sem_timeddown_slow
sem_timeddown timeout ts s =
    let s' = record s { count = s.count -ℤ pos 1 } in
    if ltb_ℤ s'.count (pos 0) then sem_timeddown_slow timeout ts s' else some (ok tt, s')

-- `_rtdm_sem_down`.
sem_down_slow : List Turn → Sem → Option (Status × Sem)
unfolding down_loop
sem_down_slow ts s =
    if s.destroyed
    then some (err eidrm, s)
    else down_loop false ts (record s { sleepers = suc s.sleepers })

-- `rtdm_sem_down`.
unfoldable pub sem_down : List Turn → Sem → Option (Status × Sem)
unfolding sem_down_slow
sem_down ts s =
    let s' = record s { count = s.count -ℤ pos 1 } in
    if ltb_ℤ s'.count (pos 0) then sem_down_slow ts s' else some (ok tt, s')
