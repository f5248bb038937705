-- ===== src/Rtdm/Event.antt =====
-- The events of include/rtdm/rtdm_driver_native.h (the fast paths) and of
-- ksrc/skins/rtdm/native/drvlib.c (the slow paths). The wait queue is not modelled: a waiting task is
-- given what it meets when it looks at the event, and when it wakes up.
pub mod Outcomes
mod Tests
use rtdm_native.Prelude.{Bool, true, false, if◌then◌else◌, List, [], ◌∷◌, Option, none, some}
use rtdm_native.Prelude.Int.{ℤ, pos, ltb_ℤ}
use rtdm_native.Rtdm.Errno.{ok, err, Status, eintr, eidrm, etimedout, ewouldblock}

-- `rtdm_event_t`: the bits RTDM_EVENT_PENDING and RTDM_EVENT_DESTROY of `state`.
pub record Event : Type 0 where
  pub pending : Bool
  pub destroyed : Bool

unfoldable pub event_init : Bool → Event
event_init pending = record { pending = pending; destroyed = false }

unfoldable pub event_destroy : Event → Event
event_destroy e = record e { destroyed = true }

unfoldable pub event_signal : Event → Event
event_signal e = record e { pending = true }

unfoldable pub event_clear : Event → Event
event_clear e = record e { pending = false }

-- What another task calls meanwhile.
pub data Call : Type 0 where
  signal clear destroy pulse : Call

pub after_calls : List Call → Event → Event
unfolding event_signal event_clear event_destroy
after_calls [] e = e
after_calls (signal ∷ cs) e = after_calls cs (event_signal e)
after_calls (clear ∷ cs) e = after_calls cs (event_clear e)
after_calls (destroy ∷ cs) e = after_calls cs (event_destroy e)
after_calls (pulse ∷ cs) e = after_calls cs e

-- The calls of others since the task last looked, `signal_pending(current)`, and
-- `toseq->task == NULL`. The task tests RTDM_EVENT_DESTROY and RTDM_EVENT_PENDING in one look: a call of
-- another task between the two tests is left out.
pub record Look : Type 0 where
  pub calls : List Call
  pub signalled : Bool
  pub expired : Bool

-- Behind `schedule()`. `none`: nobody wakes the task.
woken_up : Bool → Option Look → Event → Option (Status × Event)
unfolding after_calls event_clear
woken_up timed none e = none
woken_up timed (some l) e =
    let e' = after_calls l.calls e in
    if e'.destroyed
    then some (err eidrm, e')
    else if (if timed then l.expired else false)
    then some (err etimedout, e')
    else if l.signalled
    then some (err eintr, e')
    else some (ok tt, event_clear e')

-- `_rtdm_event_wait`: `first` is met behind `prepare_to_wait`, `woken` behind `schedule`.
event_wait_slow : Look → Option Look → Event → Option (Status × Event)
unfolding after_calls woken_up event_clear
event_wait_slow first woken e =
    let e' = after_calls first.calls e in
    if e'.destroyed
    then some (err eidrm, e')
    else if first.signalled
    then some (err eintr, e')
    else if e'.pending
    then some (ok tt, event_clear e')
    else woken_up false woken e'

-- `rtdm_event_wait`
unfoldable pub event_wait : Look → Option Look → Event → Option (Status × Event)
unfolding event_wait_slow event_clear
event_wait first woken e =
    if e.destroyed
    then some (err eidrm, e)
    else if e.pending
    then some (ok tt, event_clear e)
    else event_wait_slow first woken e

-- `_rtdm_event_timedwait`: an `else` is missing behind the tests for the end of the event and for a
-- signal, so that `ret` is set again whatever they find.
event_timedwait_slow : ℤ → Look → Option Look → Event → Option (Status × Event)
unfolding event_wait_slow after_calls woken_up event_clear
event_timedwait_slow timeout first woken e =
    let e' = after_calls first.calls e in
    if ltb_ℤ (pos 0) timeout
    then (if e'.pending then some (ok tt, event_clear e') else woken_up true woken e')
    else if ltb_ℤ timeout (pos 0)
    then some (err ewouldblock, e)
    else event_wait_slow first woken e

-- `rtdm_event_timedwait`
unfoldable pub event_timedwait : ℤ → Look → Option Look → Event → Option (Status × Event)
unfolding event_timedwait_slow event_clear
event_timedwait timeout first woken e =
    if e.destroyed
    then some (err eidrm, e)
    else if e.pending
    then some (ok tt, event_clear e)
    else event_timedwait_slow timeout first woken e
