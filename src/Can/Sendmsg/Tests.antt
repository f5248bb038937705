-- ===== src/Can/Sendmsg/Tests.antt =====
-- A call of `rtcan_raw_sendmsg` with a DLC that is too large.
use rtdm_native.Prelude.{false, true, [], none, some}
use rtdm_native.Prelude.Int.{pos}
use rtdm_native.Rtdm.Errno.{ok}
use rtdm_native.Can.Types.{Config, FilterList, Socket}
use rtdm_native.Can.Socket.{World}
use rtdm_native.Can.Recvmsg.{MsgFlags}
use rtdm_native.Can.Sendmsg.{SendHdr, check_send}
use rtdm_native.Can.Sendmsg.Checks.{Vets, rtcan_raw_sendmsg-Vets}
use rtdm_native.Can.Run.{done}

abbrev small : Config
small = record { rxbuf_log = 6; max_devices = 2; max_receivers = 4 }

abbrev sock : Socket
sock = record {
  closing = false;
  get_timestamp = false;
  tx_timeout = pos 0;
  rx_timeout = pos 0;
  recv_head = 0;
  recv_tail = 0;
  recv_buf = λ _. 0;
  recv_sem = record { count = pos 0; sleepers = 0; destroyed = false };
  tx_wait_head = [];
  ifindex = 1;
  flistlen = some 1;
  err_mask = 0;
  rx_buf_full = 0;
  flist = FilterList.null;
  loopback = 1;
}

abbrev world : World
world = record {
  devices = λ _. none;
  socks = λ _. sock;
  socket_list = [];
  freed = [];
  unblocked = [];
}

abbrev flags : MsgFlags
flags = record { dontwait = true; peek = false; oob = false; other = false }

abbrev too_long : SendHdr
too_long = record {
  msg_name = none;
  msg_namelen = 0;
  msg_iovlen = 1;
  iov_len = 16;
  frame = some (record { can_id = 5; can_dlc = 16; payload = [] });
}

refusal_example :
    Vets small
      (λ t slot w. some (ok tt, w))
      (λ slot f w. done (ok tt, w))
      1
      flags
      0
      too_long
      world
      (check_send flags sock too_long)
refusal_example =
    rtcan_raw_sendmsg-Vets small (λ t slot w. some (ok tt, w)) (λ slot f w. done (ok tt, w)) 1 flags
      0 too_long world
