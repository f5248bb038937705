-- ===== src/Can/Virt.antt =====
-- The virtual driver, rtcan_virt.c: `devices` ports on one bus. `virt_devs` lists the slots of
-- `rtcan_virt_devs`. Printing and the memory of devices are left out, and so is the stop of a device
-- that is no longer in the table.
pub mod Ports
pub mod Bus
mod Tests
use rtdm_native.Prelude.{
  ℕ, zero, suc, ◌+◌, bit_and, Bool, true, false, not, ◌==◌, if◌then◌else◌, List, [], ◌∷◌, take,
  Option, none, some,
}
use rtdm_native.Rtdm.Errno.{ok, err, Status, eopnotsupp}
use rtdm_native.Rtdm.Sem.{sem_up, sem_init, sem_destroy}
use rtdm_native.Memory.{update}
use rtdm_native.Can.Types.{
  Config, CanFrame, CanMode, CanState, Device, Skb, can_rtr_flag, empty_rb_frame_size,
}
use rtdm_native.Can.Dev.{Devices, rtcan_dev_alloc, rtcan_dev_register, rtcan_dev_unregister}
use rtdm_native.Can.Socket.{World}
use rtdm_native.Can.Receive.{overwrite, rtcan_rcv, rtcan_loopback}
use rtdm_native.Can.Sendmsg.{on_device}
use rtdm_native.Can.Run.{Run, done, fault, ◌>>=◌}

-- The frame that the ports receive; `junk` is what the 16 bytes of its `data` on the stack hold where the
-- code writes nothing, and `payload` the memory from the sender's 8 data bytes on, which a DLC above 8
-- reads behind their end.
unfoldable pub virt_skb : List ℕ → CanFrame → Skb
virt_skb junk tx =
    let sends = bit_and tx.can_id can_rtr_flag == 0 in
    record {
      rb_frame_size = if sends then empty_rb_frame_size + tx.can_dlc else empty_rb_frame_size;
      rb_frame = record {
        can_id = tx.can_id;
        can_ifindex = 0;
        can_dlc = tx.can_dlc;
        area = if sends then overwrite 0 (take tx.can_dlc tx.payload) junk else junk;
      };
    }

-- `rtcan_loopback_pending`
abbrev pub loopback_pending : Device → Bool
loopback_pending d = elim (d.tx_socket) [ none ↦ false | some _ ↦ true ]

abbrev pub is_active : CanState → Bool
is_active CanState.active = true
is_active _ = false

module _ (c : Config) (clock : ℕ → List ℕ) where
  -- The frame at one port: an active one gets it, the sender's own as an echo if one is due.
  unfoldable pub virt_port : ℕ → ℕ → ℕ → Skb → World → Run (Skb × World)
  virt_port tx_slot i slot skb w = elim (w.devices slot) [
    | none ↦ fault
    | some d ↦
        if not (is_active d.state)
        then done (skb, w)
        else if not (slot == tx_slot)
        then (do
          (d', socks, skb') ←
              rtcan_rcv c (clock i) d w.socks
                (record skb { rb_frame = record (skb.rb_frame) { can_ifindex = d.ifindex } })
          done (skb', record w { devices = update w.devices slot (some d'); socks = socks }))
        else if loopback_pending d
        then (do
          (d', socks) ← rtcan_loopback c (clock i) d w.socks
          done (skb, record w { devices = update w.devices slot (some d'); socks = socks }))
        else done (skb, w)
  ]

  -- "Deliver to all other devices on the virtual bus": port `i` and those behind it.
  pub virt_deliver : ℕ → ℕ → List ℕ → Skb → World → Run World
  virt_deliver tx_slot i [] skb w = done w
  virt_deliver tx_slot i (slot ∷ slots) skb w = do
    (skb', w') ← virt_port tx_slot i slot skb w
    virt_deliver tx_slot (i + 1) slots skb' w'

  unfoldable pub rtcan_virt_start_xmit :
      List ℕ → List ℕ → ℕ → CanFrame → World → Run (Status × World)
  rtcan_virt_start_xmit virt_devs junk tx_slot tx w = do
    let w₁ = on_device tx_slot (λ d. record d { tx_sem = sem_up d.tx_sem }) w
    w₂ ← virt_deliver tx_slot 0 virt_devs (virt_skb junk tx) w₁
    done (ok tt, w₂)

unfoldable pub rtcan_virt_set_mode : CanMode → Device → Status × Device
rtcan_virt_set_mode CanMode.stop d =
    (ok tt, record d { state = CanState.stopped; tx_sem = sem_destroy d.tx_sem })
rtcan_virt_set_mode CanMode.start d =
    (ok tt, record d { tx_sem = sem_init 1; state = CanState.active })
rtcan_virt_set_mode CanMode.sleep d = (err eopnotsupp, d)

-- "rtcan%d"
abbrev pub rtcan_dev_name : List ℕ
rtcan_dev_name = b'r' ∷ b't' ∷ b'c' ∷ b'a' ∷ b'n' ∷ b'%' ∷ b'd' ∷ []

-- `rtcan_virt_init_one` when memory is there: the device and the table.
unfoldable pub rtcan_virt_init_one :
    Config → (List ℕ → ℕ → List ℕ) → Devices → Status × Device × Devices
rtcan_virt_init_one c format ds =
    let (_, d) = rtcan_virt_set_mode CanMode.stop (rtcan_dev_alloc c) in
    rtcan_dev_register c format (record d { name = rtcan_dev_name }) ds

-- The error path of `rtcan_virt_init`, the last device first. `none`: one is still referenced.
pub virt_unwind : List Device → Devices → Option Devices
virt_unwind [] ds = some ds
virt_unwind (d ∷ done_devs) ds = elim (rtcan_dev_unregister d ds) [
  | none ↦ none
  | some (_, ds') ↦ virt_unwind done_devs ds'
]

-- `rtcan_virt_init`: `n` devices to go; those that are initialised, the last first.
pub rtcan_virt_init :
    Config → (List ℕ → ℕ → List ℕ) → ℕ → List Device → Devices → Option (Status × Devices)
rtcan_virt_init c format zero ready ds = some (ok tt, ds)
rtcan_virt_init c format (suc n) ready ds =
    let (ret, d, ds') = rtcan_virt_init_one c format ds in
    elim ret [
      | err e ↦ elim (virt_unwind ready ds') [ none ↦ none | some ds'' ↦ some (err e, ds'') ]
      | ok _ ↦ rtcan_virt_init c format n (d ∷ ready) ds'
    ]

-- `rtcan_virt_exit`: each device is stopped and taken out of the table. `none`: one is still referenced, and
-- `rtcan_dev_unregister` waits.
pub rtcan_virt_exit : List ℕ → Devices → Option Devices
rtcan_virt_exit [] ds = some ds
rtcan_virt_exit (slot ∷ slots) ds = elim (ds slot) [
  | none ↦ rtcan_virt_exit slots ds
  | some d ↦
      let (_, d') = rtcan_virt_set_mode CanMode.stop d in
      elim (rtcan_dev_unregister d' (update ds slot (some d'))) [
        | none ↦ none
        | some (_, ds') ↦ rtcan_virt_exit slots ds'
      ]
]
