-- ===== src/Can/Recvmsg.antt =====
-- `rtcan_raw_recvmsg` of rtcan_raw.c. User memory is a kernel buffer here, as in a call with no
-- `user_info`; CONFIG_XENO_DRIVERS_CAN_BUS_ERR is off, so that `rtcan_raw_enable_bus_err` is empty.
mod Tests
pub mod Decode
pub mod Queueing
pub mod Roundtrip
use rtdm_native.Prelude.{
  ℕ, ◌+◌, ◌-◌, ◌≡◌, bit_and, Bool, true, false, not, ◌&&◌, ◌||◌, ltb, ◌==◌, if◌then◌else◌, List, [],
  ◌∷◌, ◌++◌, replicate, length, Option, none, some,
}
use rtdm_native.Prelude.Int.{ℤ, pos, negsuc}
use rtdm_native.Rtdm.Errno.{
  Result, ok, err, Status, Errno, einval, emsgsize, ebadf, eagain, eidrm, ewouldblock,
}
use rtdm_native.Rtdm.Sem.{sem_up}
use rtdm_native.Can.Types.{
  Config, CanFrame, Socket, can_rtr_flag, rtcan_has_timestamp, rtcan_has_no_timestamp,
  rtcan_timestamp_size,
}
use rtdm_native.Can.Ring.{memcpy_from_ring_buf, wrap_index, u32_of_bytes}

-- The flags of a call: MSG_DONTWAIT, MSG_PEEK, MSG_OOB, and whether any other bit is set.
pub record MsgFlags : Type 0 where
  pub dontwait : Bool
  pub peek : Bool
  pub oob : Bool
  pub other : Bool

-- `struct msghdr`, with the `iov_len` of its first buffer. `has_name` and `has_control` say that the
-- pointer is not NULL.
pub record Msghdr : Type 0 where
  pub has_name : Bool
  pub msg_namelen : ℕ
  pub msg_iovlen : ℕ
  pub iov_len : ℕ
  pub has_control : Bool
  pub msg_controllen : ℕ

-- What a successful call leaves in the caller's buffers: `can_ifindex` at `msg_name`, the frame,
-- the 8 bytes at `msg_control`, and the lengths of the header.
pub record Reply : Type 0 where
  pub can_ifindex : Option ℕ
  pub frame : CanFrame
  pub control : Option (List ℕ)
  pub hdr : Msghdr

-- `sizeof(struct sockaddr_can)`, `sizeof(can_frame_t)`
abbrev pub sizeof_sockaddr_can : ℕ
sizeof_sockaddr_can = 8

abbrev pub sizeof_can_frame : ℕ
sizeof_can_frame = 16

-- The sanity checks, in the code's order.
pub check_msghdr : MsgFlags → Msghdr → Status
check_msghdr flags msg =
    if flags.oob || flags.other
    then err einval
    else if (if msg.has_name
        then ltb msg.msg_namelen sizeof_sockaddr_can
        else not (msg.msg_namelen == 0))
    then err einval
    else if not (msg.msg_iovlen == 1)
    then err emsgsize
    else if ltb msg.iov_len sizeof_can_frame
    then err emsgsize
    else if (if msg.has_control
        then ltb msg.msg_controllen rtcan_timestamp_size
        else not (msg.msg_controllen == 0))
    then err einval
    else ok tt

-- The error of the semaphore as the caller gets it.
pub recv_error : Errno → Errno
recv_error eidrm = ebadf
recv_error ewouldblock = eagain
recv_error e = e

-- What is read from the ring: the frame, its interface, the DLC with its mark, the timestamp (zero
-- bytes if none is read), and the index behind.
pub record Fetched : Type 0 where
  pub frame : CanFrame
  pub can_ifindex : ℕ
  pub can_dlc : ℕ
  pub timestamp : List ℕ
  pub index : ℕ

pub payload_size : ℕ → ℕ
payload_size dlc = if ltb 8 dlc then 8 else dlc

module _ (c : Config) where
  -- The data bytes, unless the frame is a remote request or has none.
  pub fetch_payload : (ℕ → ℕ) → ℕ → ℕ → ℕ → List ℕ × ℕ
  fetch_payload recv_buf index can_id size =
      if bit_and can_id can_rtr_flag == 0 && not (size == 0)
      then memcpy_from_ring_buf c recv_buf index size
      else ([], index)

  -- The timestamp, if there is one and the caller wants it (`msg->msg_controllen` is not 0).
  pub fetch_timestamp : Bool → (ℕ → ℕ) → ℕ → ℕ → List ℕ × ℕ
  fetch_timestamp wants recv_buf index can_dlc =
      if wants && not (bit_and can_dlc rtcan_has_timestamp == 0)
      then memcpy_from_ring_buf c recv_buf index rtcan_timestamp_size
      else (replicate 8 0, index)

  pub fetch : Bool → (ℕ → ℕ) → ℕ → Fetched
  fetch wants recv_buf head =
      let (id_bytes, i1) = memcpy_from_ring_buf c recv_buf head 4 in
      let i2 = wrap_index c (i1 + 1) in
      let i3 = wrap_index c (i2 + 1) in
      let can_id = u32_of_bytes id_bytes in
      let can_dlc = recv_buf i2 in
      let dlc = bit_and can_dlc rtcan_has_no_timestamp in
      let (bytes, i4) = fetch_payload recv_buf i3 can_id (payload_size dlc) in
      let (timestamp, i5) = fetch_timestamp wants recv_buf i4 can_dlc in
      record {
        frame = record {
          can_id = can_id;
          can_dlc = dlc;
          payload = bytes ++ replicate (8 - length bytes) 0;
        };
        can_ifindex = recv_buf i1;
        can_dlc = can_dlc;
        timestamp = timestamp;
        index = i5;
      }

  -- The critical section after the wait.
  pub take_message : Bool → Socket → Fetched → Socket
  take_message peek s f =
      if peek then record s { recv_sem = sem_up s.recv_sem } else record s { recv_head = f.index }

  -- The copies to the caller.
  pub reply : Msghdr → Fetched → Reply
  reply msg f =
      let named = not (msg.msg_namelen == 0) in
      let wants = not (msg.msg_controllen == 0) in
      let stamped = not (bit_and f.can_dlc rtcan_has_timestamp == 0) in
      record {
        can_ifindex = if named then some f.can_ifindex else none;
        frame = f.frame;
        control = if wants && stamped then some f.timestamp else none;
        hdr = record msg {
          msg_namelen = if named then sizeof_sockaddr_can else msg.msg_namelen;
          iov_len = msg.iov_len - sizeof_can_frame;
          msg_controllen =
              if wants then (if stamped then rtcan_timestamp_size else 0) else msg.msg_controllen;
        };
      }

  -- `down` is `rtdm_sem_timeddown(&sock->recv_sem, timeout, NULL)` with what other tasks do to the
  -- socket meanwhile; its `none` is a task that still sleeps.
  module _ (down : ℤ → Socket → Option (Status × Socket)) where
    pub received : MsgFlags → Msghdr → Status × Socket → Result (ℕ × Reply) × Socket
    received flags msg (err e, s) = (err (recv_error e), s)
    received flags msg (ok _, s) =
        let f = fetch (not (msg.msg_controllen == 0)) s.recv_buf s.recv_head in
        (ok (sizeof_can_frame, reply msg f), take_message flags.peek s f)

    pub rtcan_raw_recvmsg : MsgFlags → Msghdr → Socket → Option (Result (ℕ × Reply) × Socket)
    rtcan_raw_recvmsg flags msg s =
        let timeout = if flags.dontwait then negsuc 0 else s.rx_timeout in
        elim (check_msghdr flags msg) [
          | err e ↦ some (err e, s)
          | ok _ ↦ elim (down timeout s) [ none ↦ none | some r ↦ some (received flags msg r) ]
        ]
