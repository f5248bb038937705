-- ===== src/Rtdm/Device/Counting.antt =====
-- The references to a device: what an open takes, a release gives back, if the open succeeded.
use rtdm_native.Prelude.{
  ℕ, zero, suc, ◌+◌, ◌-◌, ◌<◌, ◌≡◌, refl, ap, ◌∙◌, arith, Bool, true, false, not, ◌==◌, List, [],
  ◌∷◌, Option, none, some, replicate, positive-ne,
}
use rtdm_native.Rtdm.Errno.{ok, err, Status, eagain}
use rtdm_native.Rtdm.Device.{
  named_device, Handler, Operation, RtdmDevice, is_set, or_default, set_default_op,
  set_default_op_if_null, any_handler, set_entry, set_ops, register_type, rtdm_dev_register,
  wait_for_release, rtdm_dev_unregister, rtdm_reference_device, rtdm_dereference_device,
  call_handler, rtdm_open, release_context, rtdm_chrdev_release,
}

module _ {S : Type 0} where
  -- An open whose memory was there, and a close of the context, in whatever state it is by then, leave the
  -- device as it was, if the close handler succeeds.
  pub rtdm_open-release :
      (d : RtdmDevice S) (s s' closed : S) (n : ℕ)
      → call_handler d.closing.nrt s' ≡ (ok n, closed)
      → rtdm_chrdev_release (some s') (rtdm_open (some s) d).2 ≡ (ok n, none, d)
  unfolding rtdm_chrdev_release rtdm_open rtdm_reference_device rtdm_dereference_device
      release_context
  rtdm_open-release d s s' closed n closes =
      ap (release_context (record d { refcount = d.refcount + 1 })) closes
      ∙ ap (λ (c : ℕ). (ok n, none, record d { refcount = c })) {x = d.refcount + 1 - 1}
          (omega arith)

  held :
      (looks : ℕ) (d : RtdmDevice S)
      → 0 < d.refcount
      → wait_for_release true (replicate looks (λ o. o)) d ≡ none
  unfolding wait_for_release
  held zero d used = ground (arith, used)
  held (suc looks) d used = ground (arith, used, held looks d used)

  refused :
      (looks : List (RtdmDevice S → RtdmDevice S)) (d : RtdmDevice S)
      → 0 < d.refcount
      → wait_for_release false looks d ≡ some (err eagain, d)
  unfolding wait_for_release
  refused [] d used = ground (arith, used)
  refused (others ∷ looks) d used = ground (arith, used)

  unregister_named :
      (delay : ℕ) (looks : List (RtdmDevice S → RtdmDevice S)) (d : RtdmDevice S)
      → d.device_type ≡ named_device
      → rtdm_dev_unregister delay looks d ≡ wait_for_release (not (delay == 0)) looks d
  unfolding rtdm_dev_unregister
  unregister_named delay looks d named = ground (arith, named)

  used_device :
      (d : RtdmDevice S) (looks : List (RtdmDevice S → RtdmDevice S)) (count delay : ℕ)
      → d.device_type ≡ named_device
      → 0 < delay
      → 0 < d.refcount
      → (rtdm_dev_unregister 0 looks d ≡ some (err eagain, d))
        × (rtdm_dev_unregister delay (replicate count (λ o. o)) d ≡ none)
  used_device d looks count delay named polls used = (
    unregister_named 0 looks d named ∙ refused looks d used,
    unregister_named delay _ d named
        ∙ ap (λ b. wait_for_release (not b) (replicate count (λ o. o)) d) (positive-ne delay polls)
        ∙ held count d used,
  )

  -- An open keeps its reference, also when it fails: a named device cannot be unregistered behind it. Without
  -- polling -EAGAIN is returned, and with it the caller polls as long as no one else changes the count.
  pub rtdm_open-holds :
      (allocated : Option S) (d : RtdmDevice S) (looks : List (RtdmDevice S → RtdmDevice S))
      (count delay : ℕ)
      → d.device_type ≡ named_device
      → 0 < delay
      → let d' = (rtdm_open allocated d).2 in
        (rtdm_dev_unregister 0 looks d' ≡ some (err eagain, d'))
        × (rtdm_dev_unregister delay (replicate count (λ o. o)) d' ≡ none)
  unfolding rtdm_open rtdm_reference_device
  rtdm_open-holds none d looks count delay named polls =
      used_device (rtdm_reference_device d) looks count delay named polls (omega arith)
  rtdm_open-holds (some s) d looks count delay named polls =
      used_device (rtdm_reference_device d) looks count delay named polls (omega arith)

  -- Neither handler of the operation is NULL.
  abbrev pub IsFilled : Operation S → Type 0
  IsFilled op = (is_set op.rt ≡ true) × (is_set op.nrt ≡ true)

  pub record IsComplete (d : RtdmDevice S) : Type 0 where
    pub opening_filled : IsFilled d.opening
    pub socket_filled : IsFilled d.socket
    pub closing_filled : IsFilled d.closing
    pub ioctl_filled : IsFilled d.ioctl
    pub read_filled : IsFilled d.read
    pub write_filled : IsFilled d.write
    pub recvmsg_filled : IsFilled d.recvmsg
    pub sendmsg_filled : IsFilled d.sendmsg

  or_default-set : (h : Option (Handler S)) → is_set (or_default h) ≡ true
  unfolding or_default
  or_default-set none = refl
  or_default-set (some h) = refl

  filled : (op : Operation S) → IsFilled (set_default_op_if_null op)
  unfolding set_default_op_if_null
  filled op = (or_default-set op.rt, or_default-set op.nrt)

  -- A named device that passes the checks is registered without a NULL handler and without a reference, and the
  -- result is that of `register_chrdev`: the major number, which is not 0.
  pub rtdm_dev_register-IsComplete :
      (debug : Bool) (d : RtdmDevice S) (major : ℕ) (proto family : Status)
      → d.version_fits ≡ true
      → d.has_proc_name ≡ true
      → d.device_type ≡ named_device
      → any_handler d.opening ≡ true
      → is_set d.closing.nrt ≡ true
      → (d' : RtdmDevice S) × (rtdm_dev_register debug (ok major) proto family d ≡ (ok major, d'))
        × IsComplete d'
        × (d'.refcount ≡ 0)
  unfolding rtdm_dev_register set_entry set_ops register_type set_default_op
  rtdm_dev_register-IsComplete debug d major proto family fits has_name named opens closes =
      let entered : RtdmDevice S = record d {
        opening = set_default_op_if_null d.opening;
        socket = set_default_op d.socket;
      } in
      let d' : RtdmDevice S = record (set_ops entered) { chrdev_major = ok major } in
      (
        d',
        ground (arith, fits, has_name, named, opens, closes),
        record {
          opening_filled = filled d.opening;
          socket_filled = (refl, refl);
          closing_filled = filled d.closing;
          ioctl_filled = filled d.ioctl;
          read_filled = filled d.read;
          write_filled = filled d.write;
          recvmsg_filled = filled d.recvmsg;
          sendmsg_filled = filled d.sendmsg;
        },
        refl,
      )
