-- ===== src/Rtdm/Device.antt =====
-- The devices of ksrc/skins/rtdm/native/device.c and the calls of ksrc/skins/rtdm/native/core.c that open
-- and close them. `S` is the state of an open device, the private data of its driver; what Linux answers is an
-- argument.
pub mod Counting
pub mod Sockets
mod Tests
use rtdm_native.Prelude.{
  ℕ, zero, suc, ◌+◌, ◌-◌, Bool, true, false, not, ◌||◌, ◌&&◌, ltb, ◌==◌, if◌then◌else◌, List, [],
  ◌∷◌, Option, none, some,
}
use rtdm_native.Rtdm.Errno.{Result, ok, err, Status, Errno, enosys, einval, enomem, enodev, eagain}

-- `device_flags & RTDM_DEVICE_TYPE_MASK`
pub data DeviceType : Type 0 where
  no_type named_device protocol_device other_type : DeviceType

-- A handler on the state of an open device.
abbrev pub Handler : Type 0 → Type 0
Handler S = S → Result ℕ × S

-- The handlers of an operation in real-time context and outside it; `none` is NULL.
pub record Operation (S : Type 0) : Type 0 where
  pub rt : Option (Handler S)
  pub nrt : Option (Handler S)

-- `struct rtdm_device`, with what the device has registered with Linux. `opening` and `socket` are the
-- handlers outside `ops`.
pub record RtdmDevice (S : Type 0) : Type 0 where
  pub version_fits : Bool
  pub has_proc_name : Bool
  pub device_type : DeviceType
  pub opening : Operation S
  pub socket : Operation S
  pub closing : Operation S
  pub ioctl : Operation S
  pub read : Operation S
  pub write : Operation S
  pub recvmsg : Operation S
  pub sendmsg : Operation S
  pub refcount : ℕ
  pub chrdev_major : Result ℕ
  pub proto_registered : Bool
  pub family_registered : Bool

-- RTDM_ASSERT: a check of a build with CONFIG_XENO_OPT_DEBUG_RTDM, the flag `debug`, and none in others.
abbrev pub rtdm_assert : Bool → Bool → Bool
rtdm_assert debug cond = not debug || cond

module _ {S : Type 0} where
  unfoldable pub rtdm_no_support : Handler S
  rtdm_no_support s = (err enosys, s)

  abbrev pub is_set : Option (Handler S) → Bool
  is_set none = false
  is_set (some h) = true

  unfoldable pub or_default : Option (Handler S) → Option (Handler S)
  or_default none = some rtdm_no_support
  or_default (some h) = some h

  -- SET_DEFAULT_OP
  unfoldable pub set_default_op : Operation S → Operation S
  set_default_op op = record { rt = some rtdm_no_support; nrt = some rtdm_no_support }

  -- SET_DEFAULT_OP_IF_NULL
  unfoldable pub set_default_op_if_null : Operation S → Operation S
  set_default_op_if_null op = record { rt = or_default op.rt; nrt = or_default op.nrt }

  -- ANY_HANDLER
  unfoldable pub any_handler : Operation S → Bool
  any_handler op = is_set op.rt || is_set op.nrt

  -- The switch over the type of the device; `none` is -EINVAL.
  unfoldable pub set_entry : Bool → RtdmDevice S → Option (RtdmDevice S)
  set_entry debug d = elim d.device_type [
    | named_device ↦
        if rtdm_assert debug (any_handler d.opening)
        then some (record d {
          opening = set_default_op_if_null d.opening;
          socket = set_default_op d.socket;
        })
        else none
    | protocol_device ↦
        if rtdm_assert debug (any_handler d.socket)
        then some (record d {
          socket = set_default_op_if_null d.socket;
          opening = set_default_op d.opening;
        })
        else none
    | no_type ↦ none
    | other_type ↦ none
  ]

  unfoldable pub set_ops : RtdmDevice S → RtdmDevice S
  set_ops d = record d {
    closing = set_default_op_if_null d.closing;
    ioctl = set_default_op_if_null d.ioctl;
    read = set_default_op_if_null d.read;
    write = set_default_op_if_null d.write;
    recvmsg = set_default_op_if_null d.recvmsg;
    sendmsg = set_default_op_if_null d.sendmsg;
    refcount = 0;
  }

  -- The registration of a protocol: the family only if the protocol could be registered.
  unfoldable pub register_protocol : Status → Status → RtdmDevice S → Result ℕ × RtdmDevice S
  register_protocol (err e) family d = (err e, d)
  register_protocol (ok _) (err e) d = (err e, record d { proto_registered = true })
  register_protocol (ok _) (ok _) d =
      (ok 0, record d { proto_registered = true; family_registered = true })

  -- `chrdev` is the result of `register_chrdev(0, ...)`: the major number, or an error.
  unfoldable pub register_type : Result ℕ → Status → Status → RtdmDevice S → Result ℕ × RtdmDevice S
  register_type chrdev proto family d = elim d.device_type [
    | named_device ↦ (chrdev, record d { chrdev_major = chrdev })
    | _ ↦ register_protocol proto family d
  ]

  -- `rtdm_dev_register`
  unfoldable pub rtdm_dev_register :
      Bool → Result ℕ → Status → Status → RtdmDevice S → Result ℕ × RtdmDevice S
  rtdm_dev_register debug chrdev proto family d =
      if not (rtdm_assert debug d.version_fits) || not (rtdm_assert debug d.has_proc_name)
      then (err einval, d)
      else elim (set_entry debug d) [
        | none ↦ (err einval, d)
        | some d' ↦
            if rtdm_assert debug (is_set d'.closing.nrt)
            then register_type chrdev proto family (set_ops d')
            else (err einval, d')
      ]

  -- What Linux still knows of the device is taken away.
  unfoldable pub unregister_type : RtdmDevice S → RtdmDevice S
  unregister_type d = elim d.device_type [
    | named_device ↦ record d { chrdev_major = ok 0 }
    | _ ↦ record d { proto_registered = false; family_registered = false }
  ]

  -- The loop of `rtdm_dev_unregister`: each later look at the count finds the device as another task left it.
  -- `none`: the caller still polls.
  unfoldable pub wait_for_release :
      Bool → List (RtdmDevice S → RtdmDevice S) → RtdmDevice S → Option (Status × RtdmDevice S)
  wait_for_release polls [] d =
      if not (ltb 0 d.refcount)
      then some (ok tt, unregister_type d)
      else if polls
      then none
      else some (err eagain, d)
  wait_for_release polls (others ∷ looks) d =
      let later = wait_for_release polls looks (others d) in
      if not (ltb 0 d.refcount)
      then some (ok tt, unregister_type d)
      else if polls
      then later
      else some (err eagain, d)

  -- `rtdm_dev_unregister` of a device that is not NULL.
  unfoldable pub rtdm_dev_unregister :
      ℕ → List (RtdmDevice S → RtdmDevice S) → RtdmDevice S → Option (Status × RtdmDevice S)
  rtdm_dev_unregister poll_delay looks d = elim d.device_type [
    | no_type ↦ some (err enodev, d)
    | _ ↦ wait_for_release (not (poll_delay == 0)) looks d
  ]

  unfoldable pub rtdm_reference_device : RtdmDevice S → RtdmDevice S
  rtdm_reference_device d = record d { refcount = d.refcount + 1 }

  unfoldable pub rtdm_dereference_device : RtdmDevice S → RtdmDevice S
  rtdm_dereference_device d = record d { refcount = d.refcount - 1 }

  -- A call through a handler; a registered device has no NULL there.
  unfoldable pub call_handler : Option (Handler S) → S → Result ℕ × S
  call_handler none s = rtdm_no_support s
  call_handler (some h) s = h s

  -- The second handler if the first has no support.
  unfoldable pub or_second : Option (Handler S) → Result ℕ × S → Result ℕ × S
  or_second second (err enosys, s) = call_handler second s
  or_second second (r, s) = (r, s)

  -- MAJOR_CHRDEV_FUNCTION_WRAPPER and MAJOR_SOCKET_FUNCTION_WRAPPER
  unfoldable pub call_operation : Operation S → S → Result ℕ × S
  call_operation op s = or_second op.nrt (call_handler op.rt s)

  -- `_rtdm_open`: the result, `file->private_data` and the device. `allocated` is the memory of the context.
  unfoldable pub rtdm_open : Option S → RtdmDevice S → Result ℕ × Option S × RtdmDevice S
  rtdm_open none d = (err enomem, none, rtdm_reference_device d)
  rtdm_open (some s) d =
      let (r, s') = or_second d.opening.rt (call_handler d.opening.nrt s) in
      (r, some s', rtdm_reference_device d)

  -- `_rtdm_chrdev_release` behind the non-real-time close handler.
  unfoldable pub release_context : RtdmDevice S → Result ℕ × S → Result ℕ × Option S × RtdmDevice S
  release_context d (err enosys, s) =
      ((call_handler d.closing.rt s).0, none, rtdm_dereference_device d)
  release_context d (err e, s) = (err e, some s, d)
  release_context d (ok n, s) = (ok n, none, rtdm_dereference_device d)

  -- `_rtdm_chrdev_release`: the result, the context that is left, and the device.
  unfoldable pub rtdm_chrdev_release : Option S → RtdmDevice S → Result ℕ × Option S × RtdmDevice S
  rtdm_chrdev_release none d = (err enodev, none, d)
  rtdm_chrdev_release (some s) d = release_context d (call_handler d.closing.nrt s)
