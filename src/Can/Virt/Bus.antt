-- ===== src/Can/Virt/Bus.antt =====
-- The ports of the virtual bus: who gets a frame that one of them sends.
use rtdm_native.Prelude.{ℕ, ◌≡◌, ◌∙◌, arith, true, List, [], ◌∷◌}
use rtdm_native.Rtdm.Sem.{sem_up}
use rtdm_native.Can.Types.{Config, Device, Socket}
use rtdm_native.Can.Socket.{World}
use rtdm_native.Can.Filter.Chain.{has}
use rtdm_native.Can.Virt.Ports.{IsReady}

IsReady-frame :
    (c : Config) (w w' : World) (ss : List ℕ)
    → ((a : ℕ) → has a ss ≡ true → w'.devices a ≡ w.devices a)
    → IsReady c w ss
    → IsReady c w' ss
IsReady-frame c w w' [] same r = tt
IsReady-frame c w w' (s ∷ ss) same ((d, at, p), r) = (
  (d, same s (ground arith) ∙ at, p),
  IsReady-frame c w w' ss (λ a h. same a (ground (arith, h))) r,
)

-- `rtdm_sem_up(&tx_dev->tx_sem)`
abbrev pub freed_sender : Device → Device
freed_sender d = record d { tx_sem = sem_up d.tx_sem }
