-- ===== src/Can/Sendmsg/Checks.antt =====
-- The checks of `rtcan_raw_sendmsg` on its arguments.
use rtdm_native.Prelude.{ℕ, ◌≤◌, ◌≡◌, refl, arith, bit_and, true, false, ◌==◌, ◌||◌, Option, some}
use rtdm_native.Prelude.Int.{ℤ}
use rtdm_native.Rtdm.Errno.{Result, Status, ok, err}
use rtdm_native.Can.Types.{CanFrame, Config, Socket, SockId, can_eff_flag, can_eff_mask}
use rtdm_native.Can.Recvmsg.{MsgFlags}
use rtdm_native.Can.Sendmsg.{SendHdr, rtcan_raw_sendmsg, check_frame, check_send, send_ifindex}
use rtdm_native.Can.Socket.{World}
use rtdm_native.Can.Run.{Run, done}

-- A frame that may be sent: a DLC of 15 at most, and an ID of 2031 at most if it is a standard one.
pub record IsSendable (f : CanFrame) : Type 0 where
  pub dlc : f.can_dlc ≤ 15
  pub id : (bit_and f.can_id can_eff_flag == 0) ≡ true → bit_and f.can_id can_eff_mask ≤ 2031

-- What a call that passes all checks has.
pub record Passes (flags : MsgFlags) (s : Socket) (msg : SendHdr) (ifindex : ℤ) (f : CanFrame)
    : Type 0 where
  pub flags_known : (flags.oob || flags.peek || flags.other) ≡ false
  pub one_buffer : msg.msg_iovlen ≡ 1
  pub length : msg.iov_len ≡ 16
  pub interface : send_ifindex s msg ≡ ok ifindex
  pub copied : msg.frame ≡ some f
  pub sendable : IsSendable f

check_frame-IsSendable : (f : CanFrame) → check_frame f ≡ ok tt → IsSendable f
unfolding check_frame
check_frame-IsSendable f h = record { dlc = ground (arith, h); id = λ e. ground (arith, h, e) }

check_send-Passes :
    (flags : MsgFlags) (s : Socket) (msg : SendHdr) (ifindex : ℤ) (f : CanFrame)
    → check_send flags s msg ≡ ok (ifindex, f)
    → Passes flags s msg ifindex f
unfolding check_send
check_send-Passes flags s msg ifindex f h = record {
  flags_known = ground (arith, h);
  one_buffer = ground (arith, h);
  length = ground (arith, h);
  interface = ground (arith, h);
  copied = ground (arith, h);
  sendable = check_frame-IsSendable f (ground (arith, h));
}

module _ (c : Config) (down : ℤ → ℕ → World → Option (Status × World))
    (xmit : ℕ → CanFrame → World → Run (Status × World)) (me : ℕ) where
  -- The outcome of the checks, for the call.
  abbrev pub Vets : MsgFlags → SockId → SendHdr → World → Result (ℤ × CanFrame) → Type 0
  Vets flags sid msg w (ok (ifindex, f)) = Passes flags (w.socks sid) msg ifindex f
  Vets flags sid msg w (err e) =
      rtcan_raw_sendmsg c down xmit me flags sid msg w ≡ some (done (err e, w))

  -- Either a call of `rtcan_raw_sendmsg` passes the checks of its arguments, and then it has no flag but
  -- MSG_DONTWAIT, one buffer of 16 bytes with a copied frame whose DLC is 15 at most and whose ID, if it
  -- is a standard one, is 2031 at most, and an interface from its address or its binding, or it returns
  -- the error of the checks and changes nothing.
  pub rtcan_raw_sendmsg-Vets :
      (flags : MsgFlags) (sid : SockId) (msg : SendHdr) (w : World)
      → Vets flags sid msg w (check_send flags (w.socks sid) msg)
  unfolding rtcan_raw_sendmsg
  rtcan_raw_sendmsg-Vets flags sid msg w = go (check_send flags (w.socks sid) msg) refl
    where
      go :
          (r : Result (ℤ × CanFrame))
          → check_send flags (w.socks sid) msg ≡ r
          → Vets flags sid msg w r
      go (ok p) e = check_send-Passes flags (w.socks sid) msg p.0 p.1 e
      go (err x) e = ground (arith, e)
