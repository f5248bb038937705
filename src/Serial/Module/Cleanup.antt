-- ===== src/Serial/Module/Cleanup.antt =====
-- What the serial driver holds when `__16550A_init` of 16550A.c has returned.
use rtdm_native.Prelude.{ℕ, zero, suc, ◌+◌, ◌≤◌, ◌<◌, ◌≡◌, ◌==◌, if◌then◌else◌, true, false, not}
use rtdm_native.Rtdm.Errno.{Result, ok, err}
use rtdm_native.Serial.Module.{SerialModule, Grants, register_result}

-- Before port `i` exactly the configured ports have a device, and what is held of the kernel is that of the
-- devices.
pub record IsUpTo (i : ℕ) (p : SerialModule) : Type 0 where
  pub regions : (j : ℕ) → p.regions j ≡ p.device j
  pub registered : (j : ℕ) → p.registered j ≡ p.device j
  pub configured : (j : ℕ) → j < i → p.device j ≡ not (p.ioaddr j == 0)
  pub later : (j : ℕ) → i ≤ j → p.device j ≡ false

-- How a load ends. With 0 each configured port has its device, its region and its registration. With the
-- major number of some port nothing is held but that port's registration, whose device is freed. With an
-- error nothing is held.
abbrev pub Ends : Grants → SerialModule → Result ℕ × SerialModule → Type 0
Ends k p (ok zero, q) =
    (j : ℕ)
    → j < 8
    → let up = not (p.ioaddr j == 0) in
      (q.device j ≡ up) × (q.regions j ≡ up) × (q.registered j ≡ up)
Ends k p (ok (suc major), q) =
    (q.pnp_registered ≡ false)
    × ((i : ℕ) × ((p.ioaddr i == 0) ≡ false)
        × (register_result k i ≡ ok (suc major))
        × (q.device i ≡ false)
        × ((j : ℕ) → (q.regions j ≡ false) × (q.registered j ≡ (i == j))))
Ends k p (err e, q) =
    (q.pnp_registered ≡ false) × ((j : ℕ) → (q.regions j ≡ false) × (q.registered j ≡ false))

-- The registration of port `i` is left over from a device that was freed.
record LeftOver (i : ℕ) (q : SerialModule) : Type 0 where
  regions : (j : ℕ) → q.regions j ≡ q.device j
  registered : (j : ℕ) → q.registered j ≡ (if i == j then true else q.device j)
  later : (j : ℕ) → i ≤ j → q.device j ≡ false

-- After a port: one more is up, or the ones before still are and nothing else is held, or only the
-- registration of this one.
abbrev After : Grants → ℕ → SerialModule → Result ℕ × SerialModule → Type 0
After k i p (ok zero, q) = IsUpTo (i + 1) q × ((j : ℕ) → q.ioaddr j ≡ p.ioaddr j)
After k i p (ok (suc major), q) = LeftOver i q × (register_result k i ≡ ok (suc major))
After k i p (err _, q) = IsUpTo i q

-- A probe changes interrupts at most.
abbrev SamePorts : SerialModule → SerialModule → Type 0
SamePorts p q =
    (j : ℕ)
    → (q.ioaddr j ≡ p.ioaddr j)
      × (q.device j ≡ p.device j)
      × (q.regions j ≡ p.regions j)
      × (q.registered j ≡ p.registered j)
