-- ===== src/Rtdm/Device/Sockets.antt =====
-- The sockets of ksrc/skins/rtdm/native/core.c: `rtdm_socket_lx` and `_rtdm_sock_release`.
use rtdm_native.Prelude.{ℕ, Option, none, some}
use rtdm_native.Rtdm.Errno.{Result, ok, err, enomem}
use rtdm_native.Rtdm.Device.{
  RtdmDevice, call_handler, or_second, call_operation, rtdm_reference_device,
  rtdm_dereference_device,
}

module _ {S : Type 0} where
  -- `rtdm_socket_lx`: the result, `sock->sk` and the device. `allocated` is what `sk_alloc` gives.
  unfoldable pub rtdm_socket_lx : Option S → RtdmDevice S → Result ℕ × Option S × RtdmDevice S
  rtdm_socket_lx none d = (err enomem, none, rtdm_reference_device d)
  rtdm_socket_lx (some s) d =
      let (r, s') = or_second d.socket.rt (call_handler d.socket.nrt s) in
      (r, some s', rtdm_reference_device d)

  -- `_rtdm_sock_release` behind the close handler: any error keeps the socket.
  unfoldable pub release_socket : RtdmDevice S → Result ℕ × S → Result ℕ × Option S × RtdmDevice S
  release_socket d (err e, s) = (err e, some s, d)
  release_socket d (ok n, s) = (ok n, none, rtdm_dereference_device d)

  unfoldable pub rtdm_sock_release : S → RtdmDevice S → Result ℕ × Option S × RtdmDevice S
  unfolding release_socket
  rtdm_sock_release s d = release_socket d (call_handler d.closing.nrt s)

  -- The calls on a socket. `bind`, `setsockopt` and `getsockopt` are requests of the ioctl handler.
  unfoldable pub rtdm_sock_ioctl : RtdmDevice S → S → Result ℕ × S
  rtdm_sock_ioctl d s = call_operation d.ioctl s

  unfoldable pub rtdm_sock_recvmsg : RtdmDevice S → S → Result ℕ × S
  rtdm_sock_recvmsg d s = call_operation d.recvmsg s

  unfoldable pub rtdm_sock_sendmsg : RtdmDevice S → S → Result ℕ × S
  rtdm_sock_sendmsg d s = call_operation d.sendmsg s
