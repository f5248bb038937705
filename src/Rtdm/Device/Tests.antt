-- ===== src/Rtdm/Device/Tests.antt =====
-- A device whose open device counts its calls.
use rtdm_native.Prelude.{ℕ, ◌+◌, ◌≡◌, refl, arith, true, false, none, some, replicate, []}
use rtdm_native.Rtdm.Errno.{ok, err, eagain}
use rtdm_native.Rtdm.Device.{
  named_device, Operation, RtdmDevice, any_handler, call_handler, rtdm_open, rtdm_chrdev_release,
  rtdm_dev_register, rtdm_dev_unregister,
}
use rtdm_native.Rtdm.Device.Counting.{
  IsComplete, rtdm_open-release, rtdm_open-holds, rtdm_dev_register-IsComplete,
}

abbrev counting : Operation ℕ
counting = record { rt = none; nrt = some (λ s. (ok 0, s + 1)) }

abbrev unset : Operation ℕ
unset = record { rt = none; nrt = none }

abbrev counter : RtdmDevice ℕ
counter = record {
  version_fits = true;
  has_proc_name = true;
  device_type = named_device;
  opening = counting;
  socket = unset;
  closing = counting;
  ioctl = unset;
  read = unset;
  write = unset;
  recvmsg = unset;
  sendmsg = unset;
  refcount = 2;
  chrdev_major = ok 0;
  proto_registered = false;
  family_registered = false;
}

close_example : rtdm_chrdev_release (some 7) (rtdm_open (some 0) counter).2 ≡ (ok 0, none, counter)
unfolding call_handler
close_example = rtdm_open-release counter 0 7 8 0 refl

reference_example :
    (rtdm_dev_unregister 0 [] (rtdm_open none counter).2
      ≡ some (err eagain, (rtdm_open none counter).2))
    × (rtdm_dev_unregister 10 (replicate 3 (λ o. o)) (rtdm_open none counter).2 ≡ none)
reference_example = rtdm_open-holds none counter [] 3 10 refl (omega arith)

register_example :
    (d' : RtdmDevice ℕ) × (rtdm_dev_register true (ok 254) (ok tt) (ok tt) counter ≡ (ok 254, d'))
    × IsComplete d'
    × (d'.refcount ≡ 0)
unfolding any_handler
register_example =
    rtdm_dev_register-IsComplete true counter 254 (ok tt) (ok tt) refl refl refl refl refl
