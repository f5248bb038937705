-- ===== src/Can/Receive/Tests.antt =====
-- A frame at a device with two listeners.
use rtdm_native.Prelude.{
  ℕ, arith, refl, false, ◌&&◌, if◌then◌else◌, List, [], ◌∷◌, ◌≡◌, Option, none, some,
}
use rtdm_native.Prelude.Int.{pos}
use rtdm_native.Memory.{update}
use rtdm_native.Can.Types.{Config, Device, FilterList, Recv, Skb, Socket, SockId, inc32}
use rtdm_native.Can.Dev.{rtcan_dev_alloc}
use rtdm_native.Can.Filter.{rtcan_accept_msg}
use rtdm_native.Can.Filter.Chain.{has}
use rtdm_native.Can.Filter.Lists.{IsWf}
use rtdm_native.Can.Receive.{wants_error, wants_frame, rtcan_rcv}
use rtdm_native.Can.Receive.Listeners.{counted, served}
use rtdm_native.Can.Receive.Serving.{started, rtcan_rcv-serves}
use rtdm_native.Can.Receive.ErrorFrames.{reported, reporting, rtcan_rcv-reports}
use rtdm_native.Can.Run.{done}

abbrev small : Config
small = record { rxbuf_log = 6; max_devices = 2; max_receivers = 4 }

abbrev at_entry : ℕ → Option ℕ → Option ℕ → Recv
at_entry can_id sock next = record {
  can_filter = record { can_id = can_id; can_mask = 0x7FF };
  match_count = 0;
  sock = sock;
  next = next;
}

-- Entry 0 takes frame 5 for socket 7, entry 1 takes frame 6 for socket 8.
abbrev entry : ℕ → Recv
entry =
    update (update (λ _. at_entry 0 none none) 1 (at_entry 6 (some 8) none)) 0
      (at_entry 5 (some 7) (some 1))

abbrev used : Device
used = record (rtcan_dev_alloc small) {
  recv_list = some 0;
  empty_list = some 2;
  receivers = entry;
  free_entries = 1;
}

used-IsWf : IsWf used (0 ∷ 1 ∷ []) (2 ∷ [])
used-IsWf = record {
  recv = (refl, (refl, refl));
  empty = (refl, refl);
  recv_once = (refl, (refl, tt));
  empty_once = (refl, tt);
  apart = λ a h. ground (arith, h);
  free = refl;
}

abbrev socks : SockId → Socket
socks _ = record {
  closing = false;
  get_timestamp = false;
  tx_timeout = pos 0;
  rx_timeout = pos 0;
  recv_head = 0;
  recv_tail = 0;
  recv_buf = λ _. 0;
  recv_sem = record { count = pos 0; sleepers = 0; destroyed = false };
  tx_wait_head = [];
  ifindex = 0;
  flistlen = none;
  err_mask = 0;
  rx_buf_full = 0;
  flist = FilterList.null;
  loopback = 1;
}

abbrev frame : Skb
frame = record {
  rb_frame_size = 7;
  rb_frame = record { can_id = 5; can_ifindex = 1; can_dlc = 1; area = 9 ∷ [] };
}

abbrev stamp : List ℕ
stamp = 1 ∷ 2 ∷ 3 ∷ 4 ∷ 5 ∷ 6 ∷ 7 ∷ 8 ∷ []

serves_example :
    (d' : Device) × (socks' : SockId → Socket) × (skb' : Skb) × (rtcan_rcv small stamp used socks
        frame
      ≡ done (d', socks', skb'))
    × IsWf d' (0 ∷ 1 ∷ []) (2 ∷ [])
    × (d'.rx_count ≡ inc32 used.rx_count)
    × ((a : ℕ)
        → d'.receivers a
          ≡ counted (has a (0 ∷ 1 ∷ []) && rtcan_accept_msg 5 (entry a).can_filter) (entry a))
    × ((sid : SockId)
        → socks' sid ≡ (
            if served (wants_frame small) (started small stamp used socks frame) (0 ∷ 1 ∷ []) sid
            then socks' sid
            else socks sid))
serves_example =
    rtcan_rcv-serves small stamp used socks frame (0 ∷ 1 ∷ []) (2 ∷ []) refl used-IsWf
      ((7, refl), ((8, refl), tt)) (omega arith)

-- Socket 8 asks for errors of the class 2.
abbrev asking : SockId → Socket
asking = update socks 8 (record (socks 8) { err_mask = 2 })

-- An error frame of the class 2, `CAN_ERR_FLAG | CAN_ERR_LOSTARB`.
abbrev error_frame : Skb
error_frame = record {
  rb_frame_size = 15;
  rb_frame = record {
    can_id = 0x20000002;
    can_ifindex = 1;
    can_dlc = 8;
    area = 0 ∷ 0 ∷ 0 ∷ 0 ∷ 0 ∷ 0 ∷ 0 ∷ 0 ∷ [];
  };
}

reports_example :
    (d' : Device) × (socks' : SockId → Socket) × (skb' : Skb) × (rtcan_rcv small stamp used asking
        error_frame
      ≡ done (d', socks', skb'))
    × IsWf d' (0 ∷ 1 ∷ []) (2 ∷ [])
    × (d'.err_count ≡ inc32 used.err_count)
    × (d'.rx_count ≡ used.rx_count)
    × ((a : ℕ)
        → d'.receivers a
          ≡ counted (has a (0 ∷ 1 ∷ []) && reported asking 0x20000002 (entry a)) (entry a))
    × ((sid : SockId)
        → socks' sid ≡ (
            if served
              (wants_error small)
              (reporting small stamp used asking error_frame)
              (0 ∷ 1 ∷ [])
              sid
            then socks' sid
            else asking sid))
reports_example =
    rtcan_rcv-reports small stamp used asking error_frame (0 ∷ 1 ∷ []) (2 ∷ []) refl used-IsWf
      ((7, refl), ((8, refl), tt)) (omega arith)
