-- ===== src/Rtdm/Mutex.antt =====
-- The mutex of include/rtdm/rtdm_driver_native.h and of ksrc/skins/rtdm/native/drvlib.c, over the kernel's
-- `rt_mutex`. What the kernel's lock answers and what other tasks do meanwhile are arguments.
use rtdm_native.Prelude.{Bool, true, false, if◌then◌else◌}
use rtdm_native.Prelude.Int.{ℤ, pos, ltb_ℤ}
use rtdm_native.Rtdm.Errno.{Status, ok, err, eidrm, ewouldblock}

-- `rtdm_mutex_t`; `destroyed` is the bit RTDM_MUTEX_DESTROY, `locked` the state of the `rt_mutex`.
pub record Mutex : Type 0 where
  pub destroyed : Bool
  pub locked : Bool

unfoldable pub mutex_init : Mutex → Mutex
mutex_init m = record { destroyed = false; locked = false }

-- A lock that is given up is free, also if it was another task's.
unfoldable pub mutex_unlock : Mutex → Mutex
mutex_unlock m = record m { locked = false }

unfoldable pub mutex_destroy : Mutex → Mutex
unfolding mutex_unlock
mutex_destroy m =
    let m' = record m { destroyed = true } in if m'.locked then mutex_unlock m' else m'

-- The end of a call that waited: an error of the kernel's lock leaves the mutex to the others.
unfoldable pub locked_by : Status → Mutex → Status × Mutex
locked_by r m =
    let m' : Mutex = elim r [ ok _ ↦ record m { locked = true } | err _ ↦ m ] in
    if m'.destroyed then (err eidrm, m') else (r, m')

-- `rtdm_mutex_lock`: `rt_mutex_lock` always gets the lock.
unfoldable pub mutex_lock : (Mutex → Mutex) → Mutex → Status × Mutex
unfolding locked_by
mutex_lock meanwhile m = if m.destroyed then (err eidrm, m) else locked_by (ok tt) (meanwhile m)

-- `rtdm_mutex_timedlock`: a negative timeout only tries. `answer` is the result of
-- `rt_mutex_timed_lock` or, without a timeout, of `rt_mutex_lock_interruptible`.
unfoldable pub mutex_timedlock : ℤ → Status → (Mutex → Mutex) → Mutex → Status × Mutex
unfolding locked_by
mutex_timedlock timeout answer meanwhile m =
    if m.destroyed
    then (err eidrm, m)
    else if ltb_ℤ timeout (pos 0)
    then if m.locked then (err ewouldblock, m) else (ok tt, record m { locked = true })
    else locked_by answer (meanwhile m)
