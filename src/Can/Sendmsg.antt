-- ===== src/Can/Sendmsg.antt =====
-- `rtcan_raw_sendmsg` of rtcan_raw.c. The frame is in kernel memory, or the copy of it from user space
-- succeeds or fails.
pub mod Checks
mod Tests
use rtdm_native.Prelude.{
  ℕ, ◌-◌, bit_and, Bool, true, false, not, ◌&&◌, ◌||◌, ltb, ◌==◌, if◌then◌else◌, List, [], ◌∷◌,
  Option, none, some,
}
use rtdm_native.Prelude.Int.{ℤ, pos, negsuc}
use rtdm_native.Rtdm.Errno.{
  Errno, Result, ok, err, Status, eopnotsupp, einval, emsgsize, enxio, efault, ebadf, enetdown,
  eagain, ecomm, eidrm, ewouldblock,
}
use rtdm_native.Rtdm.Sem.{sem_up}
use rtdm_native.Memory.{update}
use rtdm_native.Can.Types.{
  Config, CanFrame, CanState, Device, Socket, SockId, is_operating, can_eff_flag, can_eff_mask,
  can_sff_mask, inc32,
}
use rtdm_native.Can.Dev.{rtcan_dev_get_by_index, rtcan_dev_dereference}
use rtdm_native.Can.Socket.{World, put_sock}
use rtdm_native.Can.Raw.{af_can}
use rtdm_native.Can.Recvmsg.{MsgFlags, sizeof_sockaddr_can, sizeof_can_frame}
use rtdm_native.Can.Receive.{rtcan_tx_push}
use rtdm_native.Can.Run.{Run, done, fault, out_of_fuel}

-- `struct sockaddr_can` at `msg_name`.
pub record Address : Type 0 where
  pub can_family : ℕ
  pub can_ifindex : ℤ

-- `struct msghdr`: `msg_name` may be NULL, `frame` is `none` if it cannot be copied.
pub record SendHdr : Type 0 where
  pub msg_name : Option Address
  pub msg_namelen : ℕ
  pub msg_iovlen : ℕ
  pub iov_len : ℕ
  pub frame : Option CanFrame

-- The interface to send on, from the address or from the binding.
unfoldable pub send_ifindex : Socket → SendHdr → Result ℤ
send_ifindex s msg = elim (msg.msg_name) [
  | none ↦
      if not (msg.msg_namelen == 0)
      then err einval
      else if s.ifindex == 0
      then err enxio
      else ok (pos s.ifindex)
  | some a ↦
      if ltb msg.msg_namelen sizeof_sockaddr_can
      then err einval
      else if not (a.can_family == af_can)
      then err einval
      else ok a.can_ifindex
]

-- A DLC of 15 at most, and a standard ID of 2031 at most.
unfoldable pub check_frame : CanFrame → Status
check_frame f =
    if ltb 15 f.can_dlc
    then err einval
    else if bit_and f.can_id can_eff_flag == 0
        && ltb (can_sff_mask - 16) (bit_and f.can_id can_eff_mask)
    then err einval
    else ok tt

-- All checks of the arguments, in the code's order: the interface and the frame.
unfoldable pub check_send : MsgFlags → Socket → SendHdr → Result (ℤ × CanFrame)
check_send flags s msg =
    if flags.oob
    then err eopnotsupp
    else if flags.peek || flags.other
    then err einval
    else if not (msg.msg_iovlen == 1)
    then err emsgsize
    else elim (send_ifindex s msg) [
      | err e ↦ err e
      | ok ifindex ↦
          if not (msg.iov_len == sizeof_can_frame) then err emsgsize else elim (msg.frame) [
            | none ↦ err efault
            | some f ↦ elim (check_frame f) [ err e ↦ err e | ok _ ↦ ok (ifindex, f) ]
          ]
    ]

-- The error of the semaphore as the caller gets it.
unfoldable pub send_error : Errno → Errno
send_error eidrm = enetdown
send_error ewouldblock = eagain
send_error e = e

abbrev pub has_task : ℕ → List ℕ → Bool
has_task t [] = false
has_task t (x ∷ xs) = if x == t then true else has_task t xs

abbrev pub drop_task : ℕ → List ℕ → List ℕ
drop_task t [] = []
drop_task t (x ∷ xs) = if x == t then xs else x ∷ drop_task t xs

-- A change of the device in a slot.
abbrev pub on_device : ℕ → (Device → Device) → World → World
on_device slot f w = elim (w.devices slot) [
  | none ↦ w
  | some d ↦ record w { devices = update w.devices slot (some (f d)) }
]

-- `down` is `rtdm_sem_timeddown(&dev->tx_sem, timeout, NULL)` for the device in a slot, with what
-- other tasks do meanwhile (`none`: the task still sleeps); `xmit` is `dev->hard_start_xmit`; `me` is the
-- calling task.
module _ (c : Config) (down : ℤ → ℕ → World → Option (Status × World))
    (xmit : ℕ → CanFrame → World → Run (Status × World)) (me : ℕ) where
  -- The atomic section: the task queues at the socket, waits, and leaves the queue, from
  -- which a close may have taken it.
  unfoldable pub wait_for_guard : SockId → ℤ → ℕ → World → Option (Status × World)
  wait_for_guard sid timeout slot w =
      let s = w.socks sid in
      if s.closing
      then some (err ebadf, w)
      else elim (down timeout slot
          (put_sock sid (record s { tx_wait_head = me ∷ s.tx_wait_head }) w)) [
            | none ↦ none
            | some (ret, w') ↦
                let s' = w'.socks sid in
                if has_task me s'.tx_wait_head
                then some (
                  ret,
                  put_sock sid (record s' { tx_wait_head = drop_task me s'.tx_wait_head }) w',
                )
                else some (err ebadf, w')
          ]

  -- From the guard on: the echo, the state of the controller, the transmission.
  unfoldable pub transmit : SockId → ℕ → CanFrame → World → Run (Result ℕ × World)
  transmit sid slot frame w =
      let w₁ =
        if (w.socks sid).loopback == 0
        then w
        else on_device slot (λ d. rtcan_tx_push d sid frame) w in
      elim (w₁.devices slot) [
        | none ↦ fault
        | some d ↦
            let sent =
              xmit slot frame (on_device slot (λ d. record d { tx_count = inc32 d.tx_count }) w₁) in
            if is_operating d.state
            then (elim sent [
              | done (ok _, w₂) ↦ done (ok sizeof_can_frame, w₂)
              | done (err e, w₂) ↦ done (err e, w₂)
              | fault ↦ fault
              | out_of_fuel ↦ out_of_fuel
            ])
            else (elim (d.state) [
              | CanState.sleeping ↦
                  done (err ecomm, on_device slot (λ d. record d { tx_sem = sem_up d.tx_sem }) w₁)
              | _ ↦ done (err enetdown, w₁)
            ])
      ]

  -- `rtcan_dev_dereference(dev)` at the way out.
  abbrev pub leave_device : ℕ → Run (Result ℕ × World) → Run (Result ℕ × World)
  leave_device slot (done (ret, w)) = done (ret, on_device slot rtcan_dev_dereference w)
  leave_device slot fault = fault
  leave_device slot out_of_fuel = out_of_fuel

  -- `none` is a task that still sleeps.
  unfoldable pub rtcan_raw_sendmsg :
      MsgFlags → SockId → SendHdr → World → Option (Run (Result ℕ × World))
  rtcan_raw_sendmsg flags sid msg w = elim (check_send flags (w.socks sid) msg) [
    | err e ↦ some (done (err e, w))
    | ok (ifindex, frame) ↦ elim (rtcan_dev_get_by_index c ifindex w.devices) [
      | none ↦ some (done (err enxio, w))
      | some (slot, d) ↦
          let timeout = if flags.dontwait then negsuc 0 else (w.socks sid).tx_timeout in
          let w₁ = record w { devices = update w.devices slot (some d) } in
          elim (wait_for_guard sid timeout slot w₁) [
            | none ↦ none
            | some (err e, w₂) ↦ some (leave_device slot (done (err (send_error e), w₂)))
            | some (ok _, w₂) ↦ some (leave_device slot (transmit sid slot frame w₂))
          ]
    ]
  ]
