-- ===== src/Rtdm/Event/Tests.antt =====
-- Waits for an event at concrete looks.
use rtdm_native.Prelude.{◌≡◌, false, [], ◌∷◌, some}
use rtdm_native.Rtdm.Errno.{Status}
use rtdm_native.Rtdm.Event.{Call, Event, Look, event_wait}
use rtdm_native.Rtdm.Event.Outcomes.{Fits, event_wait-Fits}

abbrev calm : Look
calm = record { calls = []; signalled = false; expired = false }

abbrev pulsed : Look
pulsed = record { calls = Call.pulse ∷ []; signalled = false; expired = false }

abbrev unset : Event
unset = record { pending = false; destroyed = false }

wait_example :
    (r : Status × Event) × (event_wait calm (some pulsed) unset ≡ some r) × Fits calm pulsed r
wait_example = event_wait-Fits calm pulsed unset
