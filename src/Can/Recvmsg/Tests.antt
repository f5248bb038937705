-- ===== src/Can/Recvmsg/Tests.antt =====
-- Messages at concrete rings.
use rtdm_native.Prelude.{
  ℕ, take, ◌-◌, arith, refl, true, false, ◌==◌, if◌then◌else◌, List, [], ◌∷◌, ◌++◌, ◌≡◌, length,
  Option, none, some, inr,
}
use rtdm_native.Prelude.Int.{ℤ, pos}
use rtdm_native.Rtdm.Errno.{Status, ok}
use rtdm_native.Can.Types.{Config, FilterList, Socket, Skb}
use rtdm_native.Can.Ring.{rtcan_rcv_deliver, bytes_u32, put_frame, rb_frame_bytes}
use rtdm_native.Can.Ring.Frame.{Queue, queued, put_frame-Queue}
use rtdm_native.Can.Recvmsg.{MsgFlags, Msghdr, check_msghdr}
use rtdm_native.Can.Recvmsg.Decode.{Message, message_bytes, IsMessage}
use rtdm_native.Can.Recvmsg.Queueing.{IsFrame, message_of, deliver-queues}
use rtdm_native.Can.Recvmsg.Roundtrip.{Delivers, recvmsg-Delivers, recvmsg-leaves-timestamp}

abbrev small : Config
small = record { rxbuf_log = 6; max_devices = 2; max_receivers = 4 }

abbrev byte_at : List ℕ → ℕ → ℕ
byte_at [] k = 0
byte_at (x ∷ xs) k = if k == 0 then x else byte_at xs (k - 1)

-- A socket whose ring holds the bytes from index 0 on.
abbrev with_bytes : List ℕ → Socket
with_bytes xs = record {
  closing = false;
  get_timestamp = false;
  tx_timeout = pos 0;
  rx_timeout = pos 0;
  recv_head = 0;
  recv_tail = length xs;
  recv_buf = byte_at xs;
  recv_sem = record { count = pos 1; sleepers = 0; destroyed = false };
  tx_wait_head = [];
  ifindex = 0;
  flistlen = none;
  err_mask = 0;
  rx_buf_full = 0;
  flist = FilterList.null;
  loopback = 1;
}

empty-Queue : Queue small (with_bytes []) []
empty-Queue = record {
  holds = record { start = omega arith; fits = omega arith; stops = refl; bytes = refl };
  room = omega arith;
}

-- A data frame of two bytes.
abbrev frame : Skb
frame = record {
  rb_frame_size = 8;
  rb_frame = record {
    can_id = 5;
    can_ifindex = 1;
    can_dlc = 2;
    area = 7 ∷ 9 ∷ 1 ∷ 2 ∷ 3 ∷ 4 ∷ 5 ∷ 6 ∷ 7 ∷ 8 ∷ [];
  };
}

abbrev stamp : List ℕ
stamp = 1 ∷ 2 ∷ 3 ∷ 4 ∷ 5 ∷ 6 ∷ 7 ∷ 8 ∷ []

frame-IsFrame : IsFrame frame (7 ∷ 9 ∷ []) stamp []
frame-IsFrame = record {
  id = omega arith;
  byte = omega arith;
  dlc = omega arith;
  payload_length = refl;
  stamp_length = refl;
  size = refl;
  area = refl;
}

queues_example :
    Queue small
      ((rtcan_rcv_deliver small (with_bytes []) frame).0)
      (queued small [] (message_bytes (message_of false frame (7 ∷ 9 ∷ []) stamp)))
queues_example =
    deliver-queues small (with_bytes []) [] frame (7 ∷ 9 ∷ []) stamp [] frame-IsFrame empty-Queue

put_example :
    Queue small
      (put_frame small (with_bytes []) 6 frame.rb_frame)
      (queued small [] (take 6 (rb_frame_bytes frame.rb_frame)))
unfolding rb_frame_bytes bytes_u32
put_example = put_frame-Queue small (with_bytes []) [] 6 frame.rb_frame (omega arith) empty-Queue

-- The first message of a ring, and the ring with another byte behind it.
abbrev plain : Message
plain = record { can_id = 5; can_ifindex = 1; can_dlc = 2; payload = 7 ∷ 9 ∷ []; timestamp = [] }

abbrev stamped : Message
stamped = record {
  can_id = 5;
  can_ifindex = 1;
  can_dlc = 0x82;
  payload = 7 ∷ 9 ∷ [];
  timestamp = stamp;
}

plain-IsMessage : IsMessage plain
plain-IsMessage = record { id = omega arith; dlc = omega arith; payload = refl; timestamp = refl }

stamped-IsMessage : IsMessage stamped
stamped-IsMessage = record { id = omega arith; dlc = omega arith; payload = refl; timestamp = refl }

abbrev plain_sock : Socket
plain_sock = with_bytes (5 ∷ 0 ∷ 0 ∷ 0 ∷ 1 ∷ 2 ∷ 7 ∷ 9 ∷ 4 ∷ [])

abbrev stamped_sock : Socket
stamped_sock = with_bytes ((5 ∷ 0 ∷ 0 ∷ 0 ∷ 1 ∷ 0x82 ∷ 7 ∷ 9 ∷ []) ++ (stamp ++ (4 ∷ [])))

plain-Queue : Queue small plain_sock (message_bytes plain ++ (4 ∷ []))
unfolding message_bytes bytes_u32
plain-Queue = record {
  holds = record { start = omega arith; fits = omega arith; stops = refl; bytes = refl };
  room = omega arith;
}

stamped-Queue : Queue small stamped_sock (message_bytes stamped ++ (4 ∷ []))
unfolding message_bytes bytes_u32
stamped-Queue = record {
  holds = record { start = omega arith; fits = omega arith; stops = refl; bytes = refl };
  room = omega arith;
}

-- A semaphore that lets the caller through at once.
abbrev through : ℤ → Socket → Option (Status × Socket)
through timeout s = some (ok tt, s)

abbrev flags : MsgFlags
flags = record { dontwait = false; peek = false; oob = false; other = false }

abbrev header : Msghdr
header = record {
  has_name = true;
  msg_namelen = 8;
  msg_iovlen = 1;
  iov_len = 16;
  has_control = false;
  msg_controllen = 0;
}

header-sane : check_msghdr flags header ≡ ok tt
unfolding check_msghdr
header-sane = refl

delivery_example :
    Delivers small through flags header plain_sock plain (message_bytes plain ++ (4 ∷ [])) (4 ∷ [])
delivery_example =
    recvmsg-Delivers small through flags header {s = plain_sock} {s' = plain_sock} header-sane refl
      plain (4 ∷ []) plain-IsMessage plain-Queue (inr refl)

leaves_example :
    Delivers small through flags header stamped_sock stamped
      (message_bytes stamped ++ (4 ∷ []))
      (stamp ++ (4 ∷ []))
    × (length stamp ≡ 8)
leaves_example =
    recvmsg-leaves-timestamp small through flags header {s = stamped_sock} {s' = stamped_sock}
      header-sane refl stamped (4 ∷ []) stamped-IsMessage stamped-Queue refl
      (λ e. ground (arith, e))
